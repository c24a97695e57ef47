-- ===== src/Db/Storage/Laws.antt =====
-- What a write to a file changes and what it leaves alone.
use native.Mathlib.Nat.{add-zero}
use mathlib.Core.Path.{subst}
use play_apue.Prelude.{
  ℕ, zero, suc, ◌+◌, ◌≤◌, ◌≡◌, ◌⊎◌, inl, inr, refl, ap, sym, ◌∙◌, ◌++◌, [], ◌∷◌, arith, Bytes,
  length, take, drop, max, take_all,
}
use play_apue.Db.Storage.{overlay, write_at, read_at}

length-overlay : (s bs : Bytes) → length (overlay s bs) ≡ max (length s) (length bs)
unfolding overlay
length-overlay [] bs = omega arith
length-overlay (x ∷ xs) [] = omega arith
length-overlay (x ∷ xs) (b ∷ bs) = omega (arith, length-overlay xs bs)

pub length-write_at :
    (off : ℕ) (s bs : Bytes)
    → off ≤ length bs
    → length (write_at off s bs) ≡ max (off + length s) (length bs)
unfolding write_at overlay
length-write_at zero s bs h = omega (arith, length-overlay s bs)
length-write_at (suc n) s [] h = elim h [ ]
length-write_at (suc n) s (b ∷ bs) h = omega (arith, length-write_at n s bs)

take-overlay : (s bs : Bytes) → take (length s) (overlay s bs) ≡ s
unfolding overlay
take-overlay [] bs = refl
take-overlay (x ∷ xs) [] = ap (λ t. x ∷ t) (take_all xs)
take-overlay (x ∷ xs) (b ∷ bs) = ap (λ t. x ∷ t) (take-overlay xs bs)

-- What is written is read back.
pub read_at-write_at : (off : ℕ) (s bs : Bytes) → read_at (length s) off (write_at off s bs) ≡ s
unfolding read_at write_at overlay
read_at-write_at zero s bs = take-overlay s bs
read_at-write_at (suc n) s [] = read_at-write_at n s []
read_at-write_at (suc n) s (b ∷ bs) = read_at-write_at n s bs

take-nil : (n : ℕ) → take {A = ℕ} n [] ≡ []
take-nil zero = refl
take-nil (suc n) = refl

read_before :
    (n at off : ℕ) (s bs : Bytes)
    → at + n ≤ off
    → off ≤ length bs
    → read_at n at (write_at off s bs) ≡ read_at n at bs
unfolding read_at write_at overlay
read_before zero zero off s bs h k = refl
read_before zero (suc at) off s bs h k = refl
read_before (suc n) zero zero s bs h k = absurd (omega arith)
read_before (suc n) zero (suc off) s [] h k = elim k [ ]
read_before (suc n) zero (suc off) s (b ∷ bs) h k =
    ap (λ t. b ∷ t) (read_before n zero off s bs (omega arith) (omega arith))
read_before (suc n) (suc at) zero s bs h k = absurd (omega arith)
read_before (suc n) (suc at) (suc off) s [] h k = elim k [ ]
read_before (suc n) (suc at) (suc off) s (b ∷ bs) h k =
    read_before (suc n) at off s bs (omega arith) (omega arith)

drop-overlay :
    (at : ℕ) (s bs : Bytes) → length s ≤ at → at ≤ length bs → drop at (overlay s bs) ≡ drop at bs
unfolding overlay
drop-overlay at [] bs h k = refl
drop-overlay zero (x ∷ xs) bs h k = elim h [ ]
drop-overlay (suc at) (x ∷ xs) [] h k = elim k [ ]
drop-overlay (suc at) (x ∷ xs) (b ∷ bs) h k = drop-overlay at xs bs (omega arith) (omega arith)

drop_after :
    (at off : ℕ) (s bs : Bytes)
    → off + length s ≤ at
    → at ≤ length bs
    → drop at (write_at off s bs) ≡ drop at bs
unfolding write_at overlay
drop_after at zero s bs h k = drop-overlay at s bs (omega arith) k
drop_after zero (suc off) s bs h k = absurd (omega arith)
drop_after (suc at) (suc off) s [] h k = elim k [ ]
drop_after (suc at) (suc off) s (b ∷ bs) h k = drop_after at off s bs (omega arith) (omega arith)

-- The two ranges of bytes do not meet.
abbrev pub Apart : ℕ → ℕ → ℕ → ℕ → Type 0
Apart a n b m = (a + n ≤ b) ⊎ (b + m ≤ a)

-- A read in the file is not changed by a write elsewhere.
pub read_at-write_at-Apart :
    (n at off : ℕ) (s bs : Bytes)
    → Apart at n off (length s)
    → at + n ≤ length bs
    → off ≤ length bs
    → read_at n at (write_at off s bs) ≡ read_at n at bs
unfolding read_at
read_at-write_at-Apart n at off s bs (inl h) k l = unfold read_at in read_before n at off s bs h l
read_at-write_at-Apart n at off s bs (inr h) k l =
    ap (take n) (drop_after at off s bs h (omega arith))

pub length-read_at : (n at : ℕ) (bs : Bytes) → at + n ≤ length bs → length (read_at n at bs) ≡ n
unfolding read_at
length-read_at zero at bs h = refl
length-read_at (suc n) zero [] h = absurd (omega arith)
length-read_at (suc n) zero (b ∷ bs) h =
    ap suc (unfold read_at in length-read_at n zero bs (omega arith))
length-read_at (suc n) (suc at) [] h = absurd (omega arith)
length-read_at (suc n) (suc at) (b ∷ bs) h =
    unfold read_at in length-read_at (suc n) at bs (omega arith)

drop_inside :
    (n at : ℕ) (s bs : Bytes)
    → at + n ≤ length s
    → take n (drop at (overlay s bs)) ≡ take n (drop at s)
unfolding overlay
drop_inside zero at s bs h = refl
drop_inside (suc n) at [] bs h = absurd (omega arith)
drop_inside (suc n) at (x ∷ xs) [] h = refl
drop_inside (suc n) zero (x ∷ xs) (b ∷ bs) h =
    ap (λ t. x ∷ t) (drop_inside n zero xs bs (omega arith))
drop_inside (suc n) (suc at) (x ∷ xs) (b ∷ bs) h = drop_inside (suc n) at xs bs (omega arith)

-- A read within what was written.
pub read_at-write_at_inside :
    (n at off : ℕ) (s bs : Bytes)
    → at + n ≤ length s
    → read_at n (off + at) (write_at off s bs) ≡ take n (drop at s)
unfolding read_at write_at overlay
read_at-write_at_inside n at zero s bs h =
    let e : zero + at ≡ at = omega arith in rw e (drop_inside n at s bs h)
read_at-write_at_inside n at (suc off) s [] h =
    let e : suc off + at ≡ suc (off + at) = omega arith in
    rw e (read_at-write_at_inside n at off s [] h)
read_at-write_at_inside n at (suc off) s (b ∷ bs) h =
    let e : suc off + at ≡ suc (off + at) = omega arith in
    rw e (read_at-write_at_inside n at off s bs h)

pub read_at-write_at_prefix :
    (n off : ℕ) (s bs : Bytes) → n ≤ length s → read_at n off (write_at off s bs) ≡ take n s
read_at-write_at_prefix n off s bs h =
    subst (λ k. read_at n k (write_at off s bs) ≡ take n s) (add-zero off)
      (read_at-write_at_inside n 0 off s bs (omega arith))

take_add : (n m : ℕ) (bs : Bytes) → take (n + m) bs ≡ take n bs ++ take m (drop n bs)
take_add zero m bs = let e : 0 + m ≡ m = omega arith in rw e refl
take_add (suc n) m [] = let e : suc n + m ≡ suc (n + m) = omega arith in rw e (sym (take-nil m))
take_add (suc n) m (b ∷ bs) =
    let e : suc n + m ≡ suc (n + m) = omega arith in rw e (ap (λ t. b ∷ t) (take_add n m bs))

drop-nil : (n : ℕ) → drop {A = ℕ} n [] ≡ []
drop-nil zero = refl
drop-nil (suc n) = refl

drop-drop : (n o : ℕ) (bs : Bytes) → drop n (drop o bs) ≡ drop (o + n) bs
drop-drop n zero bs = let e : 0 + n ≡ n = omega arith in rw e refl
drop-drop n (suc o) [] = drop-nil n ∙ sym (drop-nil (suc o + n))
drop-drop n (suc o) (b ∷ bs) =
    let e : suc o + n ≡ suc (o + n) = omega arith in rw e (drop-drop n o bs)

-- A read in two parts.
pub read_at-add :
    (n m off : ℕ) (bs : Bytes) → read_at (n + m) off bs ≡ read_at n off bs ++ read_at m (off + n) bs
unfolding read_at
read_at-add n m off bs =
    take_add n m (drop off bs) ∙ ap (λ t. take n (drop off bs) ++ take m t) (drop-drop n off bs)
