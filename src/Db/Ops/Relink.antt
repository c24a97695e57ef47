-- ===== src/Db/Ops/Relink.antt =====
-- A record that `_db_dodelete` of apue.3e/db/db.c takes off its chain and puts on the free list, as
-- three writes of the index file.

use play_apue.Prelude.{
  ℕ, ◌+◌, ◌≤◌, ◌≡◌, List, [], ◌∷◌, ◌++◌, arith, Bytes, length, inl, inr, All, All-append, All-split,
}
use play_apue.Db.Storage.{write_at}
use play_apue.Db.Storage.Laws.{Apart}
use play_apue.Db.Record.{ptr_sz, ptr_max}
use play_apue.Db.Record.Pointer.{
  ptr_at, field, length-field, ptr_at-write_at_self, ptr_at-write_at-Apart,
}
use play_apue.Db.Record.Index.{
  IndexRecord, RecordAt, RecordAt-write_at-Apart, RecordAt-field, text_of, header_sz,
}
use play_apue.Db.Ops.Chain.{Chain}
use play_apue.Db.Ops.Insert.{Behind}

abbrev pub size_of : IndexRecord → ℕ
size_of r = header_sz + length (text_of r)

-- The bytes of two records do not meet.
abbrev pub ApartFrom : IndexRecord → IndexRecord → Type 0
ApartFrom r q = Apart q.off (size_of q) r.off (size_of r)

abbrev pub Separate : List IndexRecord → Type 0
Separate [] = Unit
Separate (r ∷ rs) = All (ApartFrom r) rs × Separate rs

-- The pointers of the records lead from a pointer to a pointer.
abbrev pub Links : ℕ → List IndexRecord → ℕ → Type 0
Links p [] q = p ≡ q
Links p (r ∷ rs) q = (p ≡ r.off) × Links r.ptrval rs q

pub Chain-RecordAt :
    (bs : Bytes) (p : ℕ) (rs : List IndexRecord) → Chain bs p rs → All (RecordAt bs) rs
Chain-RecordAt bs p [] c = tt
Chain-RecordAt bs p (r ∷ rs) (e, at, c) = (at, Chain-RecordAt bs r.ptrval rs c)

pub Chain-Links : (bs : Bytes) (p : ℕ) (rs : List IndexRecord) → Chain bs p rs → Links p rs 0
Chain-Links bs p [] c = c
Chain-Links bs p (r ∷ rs) (e, at, c) = (e, Chain-Links bs r.ptrval rs c)

pub chain_of_links :
    (bs : Bytes) (p : ℕ) (rs : List IndexRecord)
    → All (RecordAt bs) rs
    → Links p rs 0
    → Chain bs p rs
chain_of_links bs p [] h l = l
chain_of_links bs p (r ∷ rs) (at, h) (e, l) = (e, at, chain_of_links bs r.ptrval rs h l)

-- The last record of a list leads to `p`.
abbrev pub relinked : List IndexRecord → ℕ → List IndexRecord
relinked [] p = []
relinked (r ∷ []) p = record r { ptrval = p } ∷ []
relinked (r ∷ s ∷ rs) p = r ∷ relinked (s ∷ rs) p

-- The pointer behind a list of records, the first of which the pointer at `off` leads to.
abbrev pub last_ptr : ℕ → List IndexRecord → ℕ
last_ptr off [] = off
last_ptr off (r ∷ rs) = last_ptr r.off rs

-- The pointer that leads to the list, once the list leads to `p`.
abbrev pub first_ptr : ℕ → List IndexRecord → ℕ → ℕ
first_ptr old [] p = p
first_ptr old (r ∷ rs) p = old

Links-split :
    (p : ℕ) (xs : List IndexRecord) (r : IndexRecord) (zs : List IndexRecord) (q : ℕ)
    → Links p (xs ++ r ∷ zs) q
    → Links p xs r.off × Links r.ptrval zs q
Links-split p [] r zs q l = l
Links-split p (x ∷ xs) r zs q (e, l) = let (a, b) = Links-split x.ptrval xs r zs q l in ((e, a), b)

pub Links-relinked :
    (p : ℕ) (xs : List IndexRecord) (r : IndexRecord) (zs : List IndexRecord) (q : ℕ)
    → Links p (xs ++ r ∷ zs) q
    → Links (first_ptr p xs r.ptrval) (relinked xs r.ptrval ++ zs) q
Links-relinked p [] r zs q l = l.1
Links-relinked p (x ∷ []) r zs q l = (l.0, l.1.1)
Links-relinked p (x ∷ y ∷ xs) r zs q l = (l.0, Links-relinked x.ptrval (y ∷ xs) r zs q l.1)

Apart-swap : (a n b m : ℕ) → Apart a n b m → Apart b m a n
Apart-swap a n b m (inl h) = inr h
Apart-swap a n b m (inr h) = inl h

-- One record among separate ones.
pub Separate-remove :
    (xs : List IndexRecord) (r : IndexRecord) (ws : List IndexRecord)
    → Separate (xs ++ r ∷ ws)
    → All (ApartFrom r) (xs ++ ws) × Separate (xs ++ ws)
Separate-remove [] r ws h = h
Separate-remove (x ∷ xs) r ws (h, s) =
    let (l, (m, n)) = All-split (ApartFrom x) xs (r ∷ ws) h in
    let (a, b) = Separate-remove xs r ws s in
    ((Apart-swap r.off (size_of r) x.off (size_of x) m, a), (All-append (ApartFrom x) xs ws l n, b))

-- A write apart from records leaves them.
pub RecordAt-keep :
    (bs s : Bytes) (off : ℕ) (rs : List IndexRecord)
    → off ≤ length bs
    → All (λ r. Apart r.off (size_of r) off (length s)) rs
    → All (RecordAt bs) rs
    → All (RecordAt (write_at off s bs)) rs
RecordAt-keep bs s off [] fits a h = tt
RecordAt-keep bs s off (r ∷ rs) fits (a, as') (at, h) =
    (RecordAt-write_at-Apart r off s bs at a fits, RecordAt-keep bs s off rs fits as' h)

pub Apart-Behind :
    (off p : ℕ) (rs : List IndexRecord)
    → p ≤ ptr_max
    → Behind off rs
    → All (λ r. Apart r.off (size_of r) off (length (field p))) rs
Apart-Behind off p [] h b = tt
Apart-Behind off p (r ∷ rs) h (b, bs) =
    (inr (omega (arith, length-field p h)), Apart-Behind off p rs h bs)

-- A record apart from others is apart from the pointer of the last of them.
pub Apart-last_ptr :
    (x y : IndexRecord) (ys : List IndexRecord) (p : ℕ)
    → p ≤ ptr_max
    → All (ApartFrom x) (y ∷ ys)
    → Apart x.off (size_of x) (last_ptr y.off ys) (length (field p))
Apart-last_ptr x y [] p h (a, _) = ground (arith, length-field p h)
Apart-last_ptr x y (z ∷ ys) p h (a, as') = Apart-last_ptr x z ys p h as'

pub last_ptr_inside :
    (bs : Bytes) (y : IndexRecord) (ys : List IndexRecord)
    → All (RecordAt bs) (y ∷ ys)
    → last_ptr y.off ys + header_sz ≤ length bs
last_ptr_inside bs y [] (at, _) = omega (arith, at.inside)
last_ptr_inside bs y (z ∷ ys) (_, h) = last_ptr_inside bs z ys h

Apart-field :
    (x : IndexRecord) (p : ℕ) (ws : List IndexRecord)
    → p ≤ ptr_max
    → All (ApartFrom x) ws
    → All (λ r. Apart r.off (size_of r) x.off (length (field p))) ws
Apart-field x p [] h a = tt
Apart-field x p (w ∷ ws) h (a, as') = (ground (arith, length-field p h), Apart-field x p ws h as')

RecordAt-relinked_tail :
    (bs : Bytes) (p : ℕ) (x : IndexRecord) (xs ws : List IndexRecord)
    → p ≤ ptr_max
    → Separate (x ∷ xs ++ ws)
    → All (RecordAt bs) (x ∷ xs ++ ws)
    → All (RecordAt (write_at (last_ptr x.off xs) (field p) bs)) (relinked (x ∷ xs) p ++ ws)
RecordAt-relinked_tail bs p x [] ws h (a, s) (at, k) = (
  RecordAt-field x p bs h at,
  RecordAt-keep bs (field p) x.off ws (omega (arith, at.inside)) (Apart-field x p ws h a) k,
)
RecordAt-relinked_tail bs p x (y ∷ ys) ws h (a, s) (at, k) =
    let (before, _) = All-split (ApartFrom x) (y ∷ ys) ws a in
    let (there, _) = All-split (RecordAt bs) (y ∷ ys) ws k in
    (
      RecordAt-write_at-Apart x (last_ptr y.off ys) (field p) bs at
          (Apart-last_ptr x y ys p h before) (omega (arith, last_ptr_inside bs y ys there)),
      RecordAt-relinked_tail bs p y ys ws h s k,
    )

-- The write of the pointer that led to the record.
pub RecordAt-relinked :
    (bs : Bytes) (off p : ℕ) (xs ws : List IndexRecord)
    → p ≤ ptr_max
    → off ≤ length bs
    → Behind off (xs ++ ws)
    → Separate (xs ++ ws)
    → All (RecordAt bs) (xs ++ ws)
    → All (RecordAt (write_at (last_ptr off xs) (field p) bs)) (relinked xs p ++ ws)
RecordAt-relinked bs off p [] ws h fits b s k =
    RecordAt-keep bs (field p) off ws fits (Apart-Behind off p ws h b) k
RecordAt-relinked bs off p (x ∷ xs) ws h fits b s k = RecordAt-relinked_tail bs p x xs ws h s k

-- The pointer at `off` after that write.
pub ptr_at-relinked :
    (bs : Bytes) (off p : ℕ) (xs ws : List IndexRecord)
    → p ≤ ptr_max
    → off + ptr_sz ≤ length bs
    → Behind off (xs ++ ws)
    → All (RecordAt bs) (xs ++ ws)
    → ptr_at (write_at (last_ptr off xs) (field p) bs) off ≡ first_ptr (ptr_at bs off) xs p
ptr_at-relinked bs off p [] ws h fits b k = ptr_at-write_at_self off p bs h
ptr_at-relinked bs off p (x ∷ xs) ws h fits b k =
    let (there, _) = All-split (RecordAt bs) (x ∷ xs) ws k in
    let (behind, _) = All-split (λ r. off + ptr_sz ≤ r.off) (x ∷ xs) ws b in
    ptr_at-write_at-Apart off (last_ptr x.off xs) (field p) bs (inl (last_behind x xs behind)) fits
      (omega (arith, last_ptr_inside bs x xs there))
  where
    last_behind :
        (y : IndexRecord) (ys : List IndexRecord)
        → Behind off (y ∷ ys)
        → off + ptr_sz ≤ last_ptr y.off ys
    last_behind y [] (c, _) = c
    last_behind y (z ∷ ys) (_, c) = last_behind z ys c
