-- ===== src/Threads/Find.antt =====
-- foo_alloc, foo_hold and foo_find of apue.3e/threads/mutex3.c on a table of chains.
use mathlib.Core.Path.{subst}
use play_apue.Prelude.{
  ℕ, zero, suc, ◌+◌, ◌%◌, ◌<◌, ◌≤◌, ◌^◌, ◌≡◌, ◌≢◌, refl, ap, sym, ◌∙◌, inl, inr, true, false,
  Option, none, some, List, [], ◌∷◌, ◌++◌, arith, All, All-append, All-split, ◌==◌, length,
  Bool-cases,
}
use play_apue.Threads.{
  Foo, Table, at, hash, set_foo, set_head, count_up, foo_alloc, foo_hold, find_in_chain, foo_find,
}
use play_apue.Threads.Chain.{
  Entry, head_of, foo_of, Apart, AllApart, Chained, Bucket, IsTable, at_same, at_other, Chained-at,
  Chained-append, Chained-split, Apart-hash, Apart-free, Bucket-at, AllApart-around,
}

pub eq_test : (a b : ℕ) → a ≡ b → (a == b) ≡ true
eq_test a b h = ground arith

pub ne_test : (a b : ℕ) → a ≢ b → (a == b) ≡ false
ne_test a b h = ground arith

-- One chain changes, and the others are as they were.
pub IsTable-at :
    (s : Table) (t : ℕ → List Entry) (i : ℕ) (xs : List Entry)
    → ((j : ℕ) → j ≢ i → Bucket s.cell j (s.fh j) (t j))
    → Bucket s.cell i (s.fh i) xs
    → IsTable s (at i xs t)
IsTable-at s t i xs h b j = elim (Bool-cases (i == j)) [
  | inl e ↦
      let q : i ≡ j = ground arith in
      subst (λ k. Bucket s.cell k (s.fh k) (at i xs t k)) q
        (subst (Bucket s.cell i (s.fh i)) (sym (at_same i xs t)) b)
  | inr e ↦
      let q : j ≢ i = ground arith in
      subst (Bucket s.cell j (s.fh j)) (sym (at_other i j xs t q)) (h j q)
]

pub IsTable-Apart :
    (s : Table) (t : ℕ → List Entry) (a : ℕ) (foo : Foo)
    → IsTable s t
    → s.cell a ≡ some foo
    → (j : ℕ) → j ≢ hash foo.f_id
    → Apart a (t j)
IsTable-Apart s t a foo is e j ne =
    let b = is j in Apart-hash s.cell j a foo (t j) none e (λ z. ne (sym z)) b.chained b.hashed

-- The same object with another count.
abbrev pub with_count : Entry → ℕ → Entry
with_count e c = (e.0, e.1, c)

pub same_head :
    (xs : List Entry) (e : Entry) (c : ℕ) (ys : List Entry)
    → head_of (xs ++ e ∷ ys) none ≡ head_of (xs ++ with_count e c ∷ ys) none
same_head [] e c ys = refl
same_head (x ∷ xs) e c ys = refl

pub AllApart-with_count :
    (xs : List Entry) (e : Entry) (c : ℕ) (ys : List Entry)
    → AllApart (xs ++ e ∷ ys)
    → AllApart (xs ++ with_count e c ∷ ys)
AllApart-with_count [] e c ys h = h
AllApart-with_count (x ∷ xs) e c ys h =
    let P = λ (y : Entry). y.0 ≢ x.0 in
    let (l, m) = All-split P xs (e ∷ ys) h.0 in
    (All-append P xs (with_count e c ∷ ys) l m, AllApart-with_count xs e c ys h.1)

All-change :
    (P : Entry → Type 0) (xs : List Entry) (e e' : Entry) (ys : List Entry)
    → P e'
    → All P (xs ++ e ∷ ys)
    → All P (xs ++ e' ∷ ys)
All-change P xs e e' ys p h =
    let (l, m) = All-split P xs (e ∷ ys) h in All-append P xs (e' ∷ ys) l (p, m.1)

pub Chained-with_count :
    (f : ℕ → Option Foo) (xs : List Entry) (e : Entry) (c : ℕ) (ys : List Entry)
    → AllApart (xs ++ e ∷ ys)
    → Chained f (xs ++ e ∷ ys) none
    → Chained
        (at e.0 (some (foo_of (with_count e c) (head_of ys none))) f)
        (xs ++ with_count e c ∷ ys)
        none
Chained-with_count f xs e c ys h k =
    let (l, m) = Chained-split f xs (e ∷ ys) none k in
    let (u, v) = AllApart-around xs e ys h in
    let foo = some (foo_of (with_count e c) (head_of ys none)) in
    Chained-append (at e.0 foo f) xs (with_count e c ∷ ys) none
      (Chained-at f e.0 foo xs (some e.0) u l)
      (at_same e.0 foo f, Chained-at f e.0 foo ys none v m.1)

Bucket-with_count :
    (f : ℕ → Option Foo) (i : ℕ) (p : Option ℕ) (xs : List Entry) (e : Entry) (c : ℕ)
    (ys : List Entry)
    → 0 < c
    → c < 2 ^ 32
    → Bucket f i p (xs ++ e ∷ ys)
    → Bucket
        (at e.0 (some (foo_of (with_count e c) (head_of ys none))) f)
        i
        p
        (xs ++ with_count e c ∷ ys)
Bucket-with_count f i p xs e c ys c0 c1 b =
    let (_, g) = All-split (λ (x : Entry). hash x.1 ≡ i) xs (e ∷ ys) b.hashed in
    record {
      starts = b.starts ∙ same_head xs e c ys;
      chained = Chained-with_count f xs e c ys b.apart b.chained;
      apart = AllApart-with_count xs e c ys b.apart;
      hashed = All-change (λ (x : Entry). hash x.1 ≡ i) xs e (with_count e c) ys g.0 b.hashed;
      held =
          All-change (λ (x : Entry). (0 < x.2) × (x.2 < 2 ^ 32)) xs e (with_count e c) ys (c0, c1)
            b.held;
    }

-- An object of the table, with the rest of its chain.
module _ (s : Table) (t : ℕ → List Entry) (xs : List Entry) (e : Entry) (ys : List Entry)
    (is : IsTable s t) (at_e : t (hash e.1) ≡ xs ++ e ∷ ys) where
  pub whole_chain : Bucket s.cell (hash e.1) (s.fh (hash e.1)) (xs ++ e ∷ ys)
  whole_chain = subst (Bucket s.cell (hash e.1) (s.fh (hash e.1))) at_e (is (hash e.1))

  pub cell_of : s.cell e.0 ≡ some (foo_of e (head_of ys none))
  cell_of = (Chained-split s.cell xs (e ∷ ys) none whole_chain.chained).1.0

  pub held_of : (0 < e.2) × (e.2 < 2 ^ 32)
  held_of = (All-split (λ (x : Entry). (0 < x.2) × (x.2 < 2 ^ 32)) xs (e ∷ ys) whole_chain.held).1.0

  pub IsTable-with_count :
      (c : ℕ)
      → 0 < c
      → c < 2 ^ 32
      → IsTable
          (set_foo e.0 (foo_of (with_count e c) (head_of ys none)) s)
          (at (hash e.1) (xs ++ with_count e c ∷ ys) t)
  IsTable-with_count c c0 c1 =
      let foo = foo_of (with_count e c) (head_of ys none) in
      IsTable-at (set_foo e.0 foo s) t (hash e.1) (xs ++ with_count e c ∷ ys)
        (λ j ne.
          Bucket-at s.cell e.0 (some foo) j (s.fh j) (t j)
            (IsTable-Apart s t e.0 (foo_of e (head_of ys none)) is cell_of j ne) (is j))
        (Bucket-with_count s.cell (hash e.1) (s.fh (hash e.1)) xs e c ys c0 c1 whole_chain)

-- The loop stops at the first object with the identifier.
find_in_chain_lem :
    (fuel id : ℕ) (s : Table) (xs : List Entry) (e : Entry) (ys : List Entry)
    → Chained s.cell (xs ++ e ∷ ys) none
    → All (λ (x : Entry). x.1 ≢ id) xs
    → e.1 ≡ id
    → length xs < fuel
    → find_in_chain fuel id (head_of (xs ++ e ∷ ys) none) s
      ≡ some (some e.0, set_foo e.0 (count_up (foo_of e (head_of ys none))) s)
unfolding find_in_chain
find_in_chain_lem zero id s xs e ys l h q n = absurd (omega arith)
find_in_chain_lem (suc fuel) id s [] e ys l h q n = rw (l.0, eq_test e.1 id q) refl
find_in_chain_lem (suc fuel) id s (x ∷ xs) e ys l h q n =
    rw (l.0, ne_test x.1 id h.0) (find_in_chain_lem fuel id s xs e ys l.1 h.1 q (omega arith))

find_in_chain_absent :
    (fuel id : ℕ) (s : Table) (xs : List Entry)
    → Chained s.cell xs none
    → All (λ (x : Entry). x.1 ≢ id) xs
    → length xs ≤ fuel
    → find_in_chain fuel id (head_of xs none) s ≡ some (none, s)
unfolding find_in_chain
find_in_chain_absent zero id s [] l h n = refl
find_in_chain_absent (suc fuel) id s [] l h n = refl
find_in_chain_absent zero id s (x ∷ xs) l h n = absurd (omega arith)
find_in_chain_absent (suc fuel) id s (x ∷ xs) l h n =
    rw (l.0, ne_test x.1 id h.0) (find_in_chain_absent fuel id s xs l.1 h.1 (omega arith))

module _ (s : Table) (t : ℕ → List Entry) (xs : List Entry) (e : Entry) (ys : List Entry)
    (is : IsTable s t) (at_e : t (hash e.1) ≡ xs ++ e ∷ ys) (room : e.2 + 1 < 2 ^ 32) where
  -- The table with one more reference to the object.
  abbrev pub referred : Table
  referred = set_foo e.0 (foo_of (with_count e (e.2 + 1)) (head_of ys none)) s

  pub IsTable-referred : IsTable referred (at (hash e.1) (xs ++ with_count e (e.2 + 1) ∷ ys) t)
  IsTable-referred = IsTable-with_count s t xs e ys is at_e (e.2 + 1) (omega arith) room

  same_count :
      count_up (foo_of e (head_of ys none)) ≡ foo_of (with_count e (e.2 + 1)) (head_of ys none)
  same_count =
      ap (λ c. foo_of (with_count e c) (head_of ys none))
        (let q : (e.2 + 1) % 2 ^ 32 ≡ e.2 + 1 = omega arith in q)

  pub foo_hold_lem : foo_hold e.0 s ≡ some referred
  unfolding foo_hold
  foo_hold_lem =
      rw (foo_hold, cell_of s t xs e ys is at_e) (ap (λ foo. some (set_foo e.0 foo s)) same_count)

  pub foo_find_lem :
      (fuel : ℕ)
      → All (λ (x : Entry). x.1 ≢ e.1) xs
      → length xs < fuel
      → foo_find fuel e.1 s ≡ some (some e.0, referred)
  unfolding foo_find
  foo_find_lem fuel h n =
      let b = whole_chain s t xs e ys is at_e in
      ap (λ p. find_in_chain fuel e.1 p s) b.starts
      ∙ find_in_chain_lem fuel e.1 s xs e ys b.chained h refl n
      ∙ ap (λ foo. some (some e.0, set_foo e.0 foo s)) same_count

pub foo_find_absent :
    (fuel id : ℕ) (s : Table) (t : ℕ → List Entry)
    → IsTable s t
    → All (λ (x : Entry). x.1 ≢ id) (t (hash id))
    → length (t (hash id)) ≤ fuel
    → foo_find fuel id s ≡ some (none, s)
unfolding foo_find
foo_find_absent fuel id s t is h n =
    let b = is (hash id) in
    ap (λ p. find_in_chain fuel id p s) b.starts
    ∙ find_in_chain_absent fuel id s (t (hash id)) b.chained h n

-- The table with a new object at the head of its chain.
abbrev pub allocated : ℕ → ℕ → Table → Table
allocated fp id s =
    set_head (hash id) (some fp) (set_foo fp (foo_of (fp, id, 1) (s.fh (hash id))) s)

pub IsTable-allocated :
    (fp id : ℕ) (s : Table) (t : ℕ → List Entry)
    → IsTable s t
    → s.cell fp ≡ none
    → IsTable (allocated fp id s) (at (hash id) ((fp, id, 1) ∷ t (hash id)) t)
IsTable-allocated fp id s t is h =
    let i = hash id in
    let foo = foo_of (fp, id, 1) (s.fh i) in
    let away : (j : ℕ) → Bucket (at fp (some foo) s.cell) j (s.fh j) (t j) = λ j.
      Bucket-at s.cell fp (some foo) j (s.fh j) (t j)
        (Apart-free s.cell fp (t j) none h (is j).chained) (is j) in
    IsTable-at (allocated fp id s) t i ((fp, id, 1) ∷ t i)
      (λ j ne.
        subst (λ p. Bucket (at fp (some foo) s.cell) j p (t j))
          (sym (at_other i j (some fp) s.fh ne)) (away j))
      (record {
        starts = at_same i (some fp) s.fh;
        chained = (
          at_same fp (some foo) s.cell ∙ ap (λ q. some (foo_of (fp, id, 1) q)) (is i).starts,
          (away i).chained,
        );
        apart = (Apart-free s.cell fp (t i) none h (is i).chained, (is i).apart);
        hashed = (refl, (is i).hashed);
        held = ((omega arith, omega arith), (is i).held);
      })

pub foo_alloc_lem :
    (fp id : ℕ) (s : Table) → foo_alloc (some fp) true id s ≡ (some fp, allocated fp id s)
unfolding foo_alloc
foo_alloc_lem fp id s = refl
