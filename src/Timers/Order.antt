-- ===== src/Timers/Order.antt =====
-- The order of the timers of ch10/p5.c.
use mathlib.Core.Path.{subst}
use mathlib.Core.List.{Perm}
use mathlib.Core.List.Perm
use play_apue.Prelude.{ℕ, ◌≤◌, ◌≡◌, refl, List, [], ◌∷◌, arith, ltb, Bool-cases, inl, inr}
use play_apue.Timers.{Timer, Timers, insert_after, push_to, push_to_timer_list}

-- Each timer ends no later than the next.
abbrev pub IsSorted : List Timer → Type 0
IsSorted [] = Unit
IsSorted (x ∷ []) = Unit
IsSorted (x ∷ y ∷ rest) = (x.ended_at ≤ y.ended_at) × IsSorted (y ∷ rest)

pub insert_after_head :
    (node cur : Timer) (rest : List Timer)
    → (t : List Timer) × (insert_after node cur rest ≡ cur ∷ t)
unfolding insert_after
insert_after_head node cur [] = (node ∷ [], refl)
insert_after_head node cur (next ∷ rest) = elim (Bool-cases (ltb next.ended_at node.ended_at)) [
  | inl q ↦ (insert_after node next rest, rw q refl)
  | inr q ↦ (node ∷ next ∷ rest, rw q refl)
]

insert_after-IsSorted :
    (node cur : Timer) (rest : List Timer)
    → cur.ended_at ≤ node.ended_at
    → IsSorted (cur ∷ rest)
    → IsSorted (insert_after node cur rest)
unfolding insert_after
insert_after-IsSorted node cur [] h s = (h, tt)
insert_after-IsSorted node cur (next ∷ rest) h s =
    elim (Bool-cases (ltb next.ended_at node.ended_at)) [
      | inl q ↦
          let ih = insert_after-IsSorted node next rest (ground arith) s.1 in
          let (t, e) = insert_after_head node next rest in rw q (rw e (s.0, subst IsSorted e ih))
      | inr q ↦ rw q (h, (ground arith, s.1))
    ]

push_to-IsSorted :
    (now : ℕ) (node : Timer) (list : List Timer) (s : Timers)
    → IsSorted list
    → IsSorted (push_to now node list s).head
unfolding push_to
push_to-IsSorted now node [] s h = tt
push_to-IsSorted now node (first ∷ rest) s h =
    elim (Bool-cases (ltb node.ended_at first.ended_at)) [
      | inl q ↦ rw q (ground arith, h)
      | inr q ↦ rw q (insert_after-IsSorted node first rest (ground arith) h)
    ]

insert_after-Perm :
    (node cur : Timer) (rest : List Timer) → Perm (insert_after node cur rest) (node ∷ cur ∷ rest)
unfolding insert_after
insert_after-Perm node cur [] = Perm.swap node cur []
insert_after-Perm node cur (next ∷ rest) = elim (Bool-cases (ltb next.ended_at node.ended_at)) [
  | inl q ↦ rw q (
      Perm.trans (Perm.cons cur (insert_after-Perm node next rest))
        (Perm.swap node cur (next ∷ rest)))
  | inr q ↦ rw q (Perm.swap node cur (next ∷ rest))
]

push_to-Perm :
    (now : ℕ) (node : Timer) (list : List Timer) (s : Timers)
    → Perm (push_to now node list s).head (node ∷ list)
unfolding push_to
push_to-Perm now node [] s = Perm.refl (node ∷ [])
push_to-Perm now node (first ∷ rest) s = elim (Bool-cases (ltb node.ended_at first.ended_at)) [
  | inl q ↦ rw q (Perm.refl (node ∷ first ∷ rest))
  | inr q ↦ rw q (insert_after-Perm node first rest)
]

-- push_to_timer_list keeps the timers in the order of their ends, and the new list holds the new
-- timer and the old ones.
pub push_to_timer_list-IsSorted :
    (now : ℕ) (node : Timer) (s : Timers)
    → IsSorted s.head
    → IsSorted (push_to_timer_list now node s).head
      × Perm (push_to_timer_list now node s).head (node ∷ s.head)
unfolding push_to_timer_list
push_to_timer_list-IsSorted now node s h =
    (push_to-IsSorted now node s.head s h, push_to-Perm now node s.head s)
