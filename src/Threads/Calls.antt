-- ===== src/Threads/Calls.antt =====
-- Sequences of calls on the hash table of apue.3e/threads/mutex3.c.
use mathlib.Core.Path.{subst}
use play_apue.Prelude.{
  ℕ, ◌+◌, ◌-◌, ◌<◌, ◌^◌, ◌≡◌, ◌≢◌, refl, ap, sym, ◌∙◌, inl, inr, true, none, some, List, [], ◌∷◌,
  ◌++◌, arith, All, ◌==◌, length, Bool-cases,
}
use play_apue.Threads.{Table, at, hash, foo_alloc, foo_hold, foo_find, foo_rele}
use play_apue.Threads.Chain.{Entry, Bucket, IsTable, at_same}
use play_apue.Threads.Find.{
  with_count, ne_test, allocated, IsTable-allocated, foo_alloc_lem, held_of, referred,
  IsTable-referred, foo_find_lem, foo_hold_lem,
}
use play_apue.Threads.Release.{left, foo_rele_lem}

IsTable-pointwise :
    (s : Table) (t u : ℕ → List Entry) → ((j : ℕ) → t j ≡ u j) → IsTable s t → IsTable s u
IsTable-pointwise s t u h is j = subst (Bucket s.cell j (s.fh j)) (h j) (is j)

at_twice {ℓ} : {A : Type ℓ} (i : ℕ) (a b : A) (t : ℕ → A) (j : ℕ) → at i a (at i b t) j ≡ at i a t j
at_twice i a b t j = ground arith

at_self {ℓ} : {A : Type ℓ} (i : ℕ) (a : A) (t : ℕ → A) → t i ≡ a → (j : ℕ) → at i a t j ≡ t j
at_self i a t h j = elim (Bool-cases (i == j)) [
  | inl e ↦ let q : i ≡ j = ground arith in rw e (sym h ∙ ap t q)
  | inr e ↦ rw e refl
]

-- Where malloc returns an address that is free and the lock can be initialised, a foo_find behind
-- the foo_alloc of an identifier returns the new object, which is then at the head of its chain
-- with two references, before the objects that the chain had, and the other chains are as they
-- were.
pub foo_find-foo_alloc :
    (fuel fp id : ℕ) (s : Table) (t : ℕ → List Entry)
    → IsTable s t
    → s.cell fp ≡ none
    → 0 < fuel
    → (s' : Table) × (foo_find fuel id (foo_alloc (some fp) true id s).1 ≡ some (some fp, s'))
      × IsTable s' (at (hash id) ((fp, id, 2) ∷ t (hash id)) t)
foo_find-foo_alloc fuel fp id s t is h n =
    let i = hash id in
    let e : Entry = (fp, id, 1) in
    let s1 = allocated fp id s in
    let t1 = at i (e ∷ t i) t in
    let is1 = IsTable-allocated fp id s t is h in
    let at_e : t1 i ≡ e ∷ t i = at_same i (e ∷ t i) t in
    let room : 1 + 1 < 2 ^ 32 = omega arith in
    (
      referred s1 t1 [] e (t i) is1 at_e room,
      ap (λ r. foo_find fuel id r.1) (foo_alloc_lem fp id s)
          ∙ foo_find_lem s1 t1 [] e (t i) is1 at_e room fuel tt n,
      IsTable-pointwise (referred s1 t1 [] e (t i) is1 at_e room) (at i ((fp, id, 2) ∷ t i) t1)
          (at i ((fp, id, 2) ∷ t i) t) (at_twice i ((fp, id, 2) ∷ t i) (e ∷ t i) t)
          (IsTable-referred s1 t1 [] e (t i) is1 at_e room),
    )

-- A foo_find of the identifier of an object that is the first on its chain with it, whose count
-- has room for one more, returns the object and changes the table as foo_hold of the object does,
-- and a foo_rele of it then leaves the chains and counts as they were, where the fuel is more than
-- the objects before it.
pub foo_rele-foo_find :
    (fuel : ℕ) (s : Table) (t : ℕ → List Entry) (xs : List Entry) (e : Entry) (ys : List Entry)
    → IsTable s t
    → t (hash e.1) ≡ xs ++ e ∷ ys
    → All (λ (x : Entry). x.1 ≢ e.1) xs
    → e.2 + 1 < 2 ^ 32
    → length xs < fuel
    → (s1 : Table) × (s2 : Table) × (foo_find fuel e.1 s ≡ some (some e.0, s1))
      × (foo_hold e.0 s ≡ some s1)
      × (foo_rele fuel e.0 s1 ≡ some s2)
      × IsTable s2 t
foo_rele-foo_find fuel s t xs e ys is at_e first room n =
    let i = hash e.1 in
    let positive : 0 < e.2 = (held_of s t xs e ys is at_e).0 in
    let e' = with_count e (e.2 + 1) in
    let s1 = referred s t xs e ys is at_e room in
    let t1 = at i (xs ++ e' ∷ ys) t in
    let (s2, r, is2, _) =
      foo_rele_lem fuel s1 t1 xs e' ys (IsTable-referred s t xs e ys is at_e room)
        (at_same i (xs ++ e' ∷ ys) t) n in
    let back : left e' ≡ e ∷ [] =
      rw (ne_test (e.2 + 1) 1 (omega arith))
        (ap (λ c. with_count e c ∷ []) (let q : e.2 + 1 - 1 ≡ e.2 = omega arith in q)) in
    (
      s1,
      s2,
      foo_find_lem s t xs e ys is at_e room fuel first n,
      foo_hold_lem s t xs e ys is at_e room,
      r,
      IsTable-pointwise s2 (at i (xs ++ (left e' ++ ys)) t1) t
          (λ j.
            ap (λ zs. at i (xs ++ (zs ++ ys)) t1 j) back
            ∙ at_twice i (xs ++ e ∷ ys) (xs ++ e' ∷ ys) t j
            ∙ at_self i (xs ++ e ∷ ys) t at_e j)
          is2,
    )
