-- ===== src/Threads/Release.antt =====
-- foo_rele of apue.3e/threads/mutex3.c on a table of chains.
use mathlib.Core.Path.{subst}
use play_apue.Prelude.{
  ℕ, zero, suc, ◌+◌, ◌-◌, ◌%◌, ◌<◌, ◌^◌, ◌≡◌, ◌≢◌, refl, sym, ◌∙◌, ◌⊎◌, inl, inr, Bool, Option,
  none, some, List, [], ◌∷◌, ◌++◌, arith, All, All-append, All-split, ◌==◌, if◌then◌else◌, length,
  Bool-cases,
}
use play_apue.Threads.{
  Foo, Table, at, hash, set_foo, set_head, free, unlink_loop, unlink_foo, release, foo_rele,
}
use play_apue.Threads.Chain.{
  Entry, head_of, foo_of, Apart, AllApart, Chained, IsTable, at_same, at_other, Chained-at,
  Apart-hash, AllApart-around,
}
use play_apue.Threads.Find.{
  eq_test, ne_test, IsTable-at, with_count, whole_chain, cell_of, held_of, IsTable-with_count,
  Chained-with_count, AllApart-with_count, same_head,
}

-- The loop finds the object before the last one of the first list, and links it past the object.
unlink_loop_lem :
    (fuel : ℕ) (u : Table) (x : Entry) (xs : List Entry) (e : Entry) (ys : List Entry)
    → AllApart (x ∷ xs ++ e ∷ ys)
    → Chained u.cell (x ∷ xs ++ e ∷ ys) none
    → length xs < fuel
    → (f : ℕ → Option Foo) × (unlink_loop fuel e.0 (head_of ys none) (some x.0) u
        ≡ some (record u { cell = f }))
      × Chained f (x ∷ xs ++ ys) none
      × ((b : ℕ) → Apart b (x ∷ xs) → f b ≡ u.cell b)
unfolding unlink_loop
unlink_loop_lem zero u x xs e ys h l n = absurd (omega arith)
unlink_loop_lem (suc fuel) u x [] e ys h l n =
    let foo = some (foo_of x (head_of ys none)) in
    (
      at x.0 foo u.cell,
      rw (unlink_loop, l.0, eq_test e.0 e.0 refl) refl,
      (at_same x.0 foo u.cell, Chained-at u.cell x.0 foo ys none h.0.1 l.1.1),
      λ b k. at_other x.0 b foo u.cell (λ z. k.0 (sym z)),
    )
unlink_loop_lem (suc fuel) u x (y ∷ xs) e ys h l n =
    let (f, r, k, far) = unlink_loop_lem fuel u y xs e ys h.1 l.1 (omega arith) in
    let ne : y.0 ≢ e.0 = (AllApart-around (y ∷ xs) e ys h.1).0.0 in
    let (before, _) = All-split (λ (z : Entry). z.0 ≢ x.0) (y ∷ xs) (e ∷ ys) h.0 in
    (f, rw (unlink_loop, l.0, ne_test y.0 e.0 ne) r, (far x.0 before ∙ l.0, k), λ b m. far b m.1)

-- What is left of a chain without the object.
record Unlinked (u : Table) (i : ℕ) (xs ys : List Entry) (s : Table) : Type 0 where
  starts : s.fh i ≡ head_of (xs ++ ys) none
  chained : Chained s.cell (xs ++ ys) none
  same_heads : (j : ℕ) → j ≢ i → s.fh j ≡ u.fh j
  same_cells : (b : ℕ) → Apart b xs → s.cell b ≡ u.cell b

unlink_foo_lem :
    (fuel i : ℕ) (u : Table) (xs : List Entry) (e : Entry) (ys : List Entry)
    → AllApart (xs ++ e ∷ ys)
    → Chained u.cell (xs ++ e ∷ ys) none
    → u.fh i ≡ head_of (xs ++ e ∷ ys) none
    → length xs < fuel
    → (s : Table) × (unlink_foo fuel e.0 (head_of ys none) i u ≡ some s) × Unlinked u i xs ys s
unfolding unlink_foo
unlink_foo_lem fuel i u [] e ys h l p n = (
  set_head i (head_of ys none) u,
  rw (unlink_foo, p, eq_test e.0 e.0 refl) refl,
  record {
    starts = at_same i (head_of ys none) u.fh;
    chained = l.1;
    same_heads = λ j ne. at_other i j (head_of ys none) u.fh ne;
    same_cells = λ b k. refl;
  },
)
unlink_foo_lem fuel i u (x ∷ xs) e ys h l p n =
    let (f, r, k, far) = unlink_loop_lem fuel u x xs e ys h l (omega arith) in
    (
      record u { cell = f },
      rw (unlink_foo, p, ne_test x.0 e.0 (AllApart-around (x ∷ xs) e ys h).0.0) r,
      record { starts = p; chained = k; same_heads = λ j ne. refl; same_cells = far },
    )

-- The other chains, where no object apart from a chain has changed.
Chained-others :
    (f g : ℕ → Option Foo) (i j : ℕ) (xs zs : List Entry) (q : Option ℕ)
    → Chained f xs none
    → All (λ (x : Entry). hash x.1 ≡ i) xs
    → ((b : ℕ) → Apart b xs → g b ≡ f b)
    → j ≢ i
    → Chained f zs q
    → All (λ (x : Entry). hash x.1 ≡ j) zs
    → Chained g zs q
Chained-others f g i j xs [] q k h same ne l m = tt
Chained-others f g i j xs (z ∷ zs) q k h same ne l m =
    let far : Apart z.0 xs =
      Apart-hash f i z.0 (foo_of z (head_of zs q)) xs none l.0 (λ r. ne (sym m.0 ∙ r)) k h in
    (same z.0 far ∙ l.0, Chained-others f g i j xs zs q k h same ne l.1 m.1)

AllApart-remove :
    (xs : List Entry) (e : Entry) (ys : List Entry) → AllApart (xs ++ e ∷ ys) → AllApart (xs ++ ys)
AllApart-remove [] e ys h = h.1
AllApart-remove (x ∷ xs) e ys h =
    let P = λ (y : Entry). y.0 ≢ x.0 in
    let (l, m) = All-split P xs (e ∷ ys) h.0 in
    (All-append P xs ys l m.1, AllApart-remove xs e ys h.1)

All-remove :
    (P : Entry → Type 0) (xs : List Entry) (e : Entry) (ys : List Entry)
    → All P (xs ++ e ∷ ys)
    → All P (xs ++ ys)
All-remove P xs e ys h = let (l, m) = All-split P xs (e ∷ ys) h in All-append P xs ys l m.1

module _ (fuel : ℕ) (s : Table) (t : ℕ → List Entry) (xs : List Entry) (e : Entry) (ys : List Entry)
    (is : IsTable s t) (at_e : t (hash e.1) ≡ xs ++ e ∷ ys) (enough : length xs < fuel) where
  -- Another reference is left.
  rele_held :
      1 < e.2
      → (s' : Table) × (foo_rele fuel e.0 s ≡ some s')
        × IsTable s' (at (hash e.1) (xs ++ with_count e (e.2 - 1) ∷ ys) t)
  unfolding foo_rele release
  rele_held more =
      let bound : e.2 < 2 ^ 32 = (held_of s t xs e ys is at_e).1 in
      let c : (e.2 + (2 ^ 32 - 1)) % 2 ^ 32 ≡ e.2 - 1 = omega arith in
      (
        set_foo e.0 (foo_of (with_count e (e.2 - 1)) (head_of ys none)) s,
        rw (foo_rele, cell_of s t xs e ys is at_e, c, ne_test (e.2 - 1) 0 (omega arith)) refl,
        IsTable-with_count s t xs e ys is at_e (e.2 - 1) (omega arith) (omega arith),
      )

  -- The object with no reference left, still on its chain.
  abbrev dropped : Table
  dropped = set_foo e.0 (foo_of (with_count e 0) (head_of ys none)) s

  IsTable-freed :
      (s' : Table)
      → Unlinked dropped (hash e.1) xs ys s'
      → IsTable (free e.0 s') (at (hash e.1) (xs ++ ys) t)
  IsTable-freed s' u =
      let i = hash e.1 in
      let b = whole_chain s t xs e ys is at_e in
      let (l, m) = AllApart-around xs e ys b.apart in
      let same : (a : ℕ) → Apart a (xs ++ e ∷ ys) → at e.0 none s'.cell a ≡ s.cell a = λ a k.
        let (before, (ne, _)) = All-split (λ (y : Entry). y.0 ≢ a) xs (e ∷ ys) k in
        at_other e.0 a none s'.cell (λ z. ne (sym z))
        ∙ u.same_cells a before
        ∙ at_other e.0 a (some (foo_of (with_count e 0) (head_of ys none))) s.cell
            (λ z. ne (sym z)) in
      IsTable-at (free e.0 s') t i (xs ++ ys)
        (λ j ne. record {
          starts = u.same_heads j ne ∙ (is j).starts;
          chained =
              Chained-others s.cell (at e.0 none s'.cell) i j (xs ++ e ∷ ys) (t j) none b.chained
                b.hashed same ne (is j).chained (is j).hashed;
          apart = (is j).apart;
          hashed = (is j).hashed;
          held = (is j).held;
        })
        (record {
          starts = u.starts;
          chained =
              Chained-at s'.cell e.0 none (xs ++ ys) none
                (All-append (λ (y : Entry). y.0 ≢ e.0) xs ys l m) u.chained;
          apart = AllApart-remove xs e ys b.apart;
          hashed = All-remove (λ (x : Entry). hash x.1 ≡ i) xs e ys b.hashed;
          held = All-remove (λ (x : Entry). (0 < x.2) × (x.2 < 2 ^ 32)) xs e ys b.held;
        })

  -- The last reference.
  rele_last :
      e.2 ≡ 1
      → (s' : Table) × (foo_rele fuel e.0 s ≡ some s')
        × (s'.cell e.0 ≡ none)
        × IsTable s' (at (hash e.1) (xs ++ ys) t)
  unfolding foo_rele release
  rele_last one =
      let b = whole_chain s t xs e ys is at_e in
      let c : (e.2 + (2 ^ 32 - 1)) % 2 ^ 32 ≡ 0 = omega arith in
      let (s', r, u) =
        unlink_foo_lem fuel (hash e.1) dropped xs (with_count e 0) ys
          (AllApart-with_count xs e 0 ys b.apart)
          (Chained-with_count s.cell xs e 0 ys b.apart b.chained) (b.starts ∙ same_head xs e 0 ys)
          enough in
      (
        free e.0 s',
        rw (foo_rele, cell_of s t xs e ys is at_e, c, r) refl,
        at_same e.0 none s'.cell,
        IsTable-freed s' u,
      )

-- What a release leaves of an object.
abbrev pub left : Entry → List Entry
left e = if e.2 == 1 then [] else with_count e (e.2 - 1) ∷ []

-- On a hash table whose chains hold objects that are all held, foo_rele of an object ends without
-- following a null or dangling pointer, where the fuel is more than the objects before it; it
-- leaves the object with one reference less, or takes it off its chain and frees it if it had one,
-- and the other objects as they were.
pub foo_rele_lem :
    (fuel : ℕ) (s : Table) (t : ℕ → List Entry) (xs : List Entry) (e : Entry) (ys : List Entry)
    → IsTable s t
    → t (hash e.1) ≡ xs ++ e ∷ ys
    → length xs < fuel
    → (s' : Table) × (foo_rele fuel e.0 s ≡ some s')
      × IsTable s' (at (hash e.1) (xs ++ (left e ++ ys)) t)
      × ((1 < e.2) ⊎ (s'.cell e.0 ≡ none))
foo_rele_lem fuel s t xs e ys is at_e n =
    let i = hash e.1 in
    let positive : 0 < e.2 = (held_of s t xs e ys is at_e).0 in
    elim (Bool-cases (e.2 == 1)) [
      | inl q ↦
          let one : e.2 ≡ 1 = ground arith in
          let (s', r, gone, is') = rele_last fuel s t xs e ys is at_e n one in
          (
            s',
            r,
            subst
                (λ (b : Bool).
                  IsTable s'
                    (at i (xs ++ ((if b then [] else with_count e (e.2 - 1) ∷ []) ++ ys)) t))
                (sym q) is',
            inr gone,
          )
      | inr q ↦
          let more : 1 < e.2 = ground arith in
          let (s', r, is') = rele_held fuel s t xs e ys is at_e n more in
          (
            s',
            r,
            subst
                (λ (b : Bool).
                  IsTable s'
                    (at i (xs ++ ((if b then [] else with_count e (e.2 - 1) ∷ []) ++ ys)) t))
                (sym q) is',
            inl more,
          )
    ]
