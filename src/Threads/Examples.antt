-- ===== src/Threads/Examples.antt =====
-- Runs of apue.3e/threads/mutex3.c, and the theorems at a table of two objects on one chain.
use play_apue.Prelude.{ℕ, ◌<◌, ◌≡◌, refl, ◌⊎◌, true, Option, none, some, List, [], ◌∷◌, ◌++◌, arith}
use play_apue.Threads.{
  Table, at, hash, foo_alloc, foo_hold, find_in_chain, foo_find, unlink_loop, unlink_foo, release,
  foo_rele,
}
use play_apue.Threads.Chain.{Entry, IsTable}
use play_apue.Threads.Find.{IsTable-allocated}
use play_apue.Threads.Release.{left, foo_rele_lem}
use play_apue.Threads.Calls.{foo_find-foo_alloc, foo_rele-foo_find}

abbrev empty : Table
empty = record { cell = λ p. none; fh = λ i. none }

empty-IsTable : IsTable empty (λ i. [])
empty-IsTable i = record { starts = refl; chained = tt; apart = tt; hashed = tt; held = tt }

-- The identifiers 5 and 34 have the same hash.
abbrev one : Table
one = (foo_alloc (some 1) true 5 empty).1

abbrev two : Table
two = (foo_alloc (some 2) true 34 one).1

abbrev one_chains : ℕ → List Entry
one_chains = at (hash 5) ((1, 5, 1) ∷ []) λ i. []

abbrev two_chains : ℕ → List Entry
two_chains = at (hash 34) ((2, 34, 1) ∷ one_chains (hash 34)) one_chains

one-IsTable : IsTable one one_chains
unfolding foo_alloc
one-IsTable = IsTable-allocated 1 5 empty (λ i. []) empty-IsTable refl

two-IsTable : IsTable two two_chains
unfolding foo_alloc hash
two-IsTable = IsTable-allocated 2 34 one one_chains one-IsTable refl

found : Option (Option ℕ × Table) → Option ℕ
found none = none
found (some r) = r.0

find_second : found (foo_find 2 5 two) ≡ some 1
unfolding found foo_find find_in_chain foo_alloc hash
find_second = refl

find_absent : found (foo_find 2 63 two) ≡ none
unfolding found foo_find find_in_chain foo_alloc hash
find_absent = refl

-- The count of an object after a call; one that is gone has none.
count_at : ℕ → Option Table → Option ℕ
count_at p none = none
count_at p (some s) = elim (s.cell p) [ none ↦ some 0 | some foo ↦ some foo.f_count ]

hold_counts : count_at 1 (foo_hold 1 two) ≡ some 2
unfolding count_at foo_hold foo_alloc
hold_counts = refl

rele_frees : count_at 1 (foo_rele 2 1 two) ≡ some 0
unfolding count_at foo_rele release unlink_foo unlink_loop foo_alloc hash
rele_frees = refl

in_chain : two_chains (hash 5) ≡ ((2, 34, 1) ∷ []) ++ (1, 5, 1) ∷ []
unfolding hash
in_chain = refl

third_free : two.cell 3 ≡ none
unfolding foo_alloc
third_free = refl

-- The table of two objects, released, found and allocated.
foo_rele_lem_example :
    (s' : Table) × (foo_rele 2 1 two ≡ some s')
    × IsTable s' (at (hash 5) ((2, 34, 1) ∷ (left (1, 5, 1) ++ [])) two_chains)
    × ((1 < 1) ⊎ (s'.cell 1 ≡ none))
foo_rele_lem_example =
    foo_rele_lem 2 two two_chains ((2, 34, 1) ∷ []) (1, 5, 1) [] two-IsTable in_chain (omega arith)

foo_rele-foo_find_example :
    (s1 : Table) × (s2 : Table) × (foo_find 2 5 two ≡ some (some 1, s1))
    × (foo_hold 1 two ≡ some s1)
    × (foo_rele 2 1 s1 ≡ some s2)
    × IsTable s2 two_chains
foo_rele-foo_find_example =
    foo_rele-foo_find 2 two two_chains ((2, 34, 1) ∷ []) (1, 5, 1) [] two-IsTable in_chain
      ((λ e. absurd (omega arith)), tt) (omega arith) (omega arith)

foo_find-foo_alloc_example :
    (s' : Table) × (foo_find 1 63 (foo_alloc (some 3) true 63 two).1 ≡ some (some 3, s'))
    × IsTable s' (at (hash 63) ((3, 63, 2) ∷ two_chains (hash 63)) two_chains)
foo_find-foo_alloc_example =
    foo_find-foo_alloc 1 3 63 two two_chains two-IsTable third_free (omega arith)
