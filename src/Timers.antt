-- ===== src/Timers.antt =====
-- ch10/p5.c: one alarm shared by many timers, kept as a list in the order of their ends. The linked
-- list is a list; a reading of the clock is an argument, in seconds as an unsigned int. A callback is a number, and
-- does not itself touch the timers. `malloc` and `signal` succeed. The number of seconds that
-- `push_to_timer_list` returns is left out: its one caller ignores it.
pub mod Order
pub mod Alarm
mod Examples
use play_apue.Prelude.{
  ℕ, ◌+◌, ◌-◌, ◌%◌, ◌^◌, Bool, true, false, Option, none, some, List, [], ◌∷◌, ltb, ◌==◌,
  if◌then◌else◌,
}

-- `struct timer_t`; the field `next` is the rest of the list.
pub record Timer : Type 0 where
  pub started_at : ℕ
  pub ended_at : ℕ
  pub proc : ℕ

-- The list, the time at which SIGALRM will come, and the callbacks that ran, the last one first.
pub record Timers : Type 0 where
  pub head : List Timer
  pub alarm_at : Option ℕ
  pub ran : List ℕ

-- The difference of two unsigned ints.
abbrev pub sub32 : ℕ → ℕ → ℕ
sub32 a b = (a + 2 ^ 32 - b) % 2 ^ 32

-- alarm(2): the argument 0 cancels the alarm and sets none.
abbrev pub alarm : ℕ → ℕ → Option ℕ
alarm now seconds = if seconds == 0 then none else some (now + seconds)

-- The walk from `cur`, which stays in front of the node.
pub insert_after : Timer → Timer → List Timer → List Timer
insert_after node cur [] = cur ∷ node ∷ []
insert_after node cur (next ∷ rest) =
    if ltb next.ended_at node.ended_at
    then cur ∷ insert_after node next rest
    else cur ∷ node ∷ next ∷ rest

-- The node comes first, and the alarm is set for it.
abbrev pub put_first : ℕ → Timer → List Timer → Timers → Timers
put_first now node rest s = record s {
  head = node ∷ rest;
  alarm_at = alarm now (sub32 node.ended_at now);
}

pub push_to : ℕ → Timer → List Timer → Timers → Timers
push_to now node [] s = put_first now node [] s
push_to now node (first ∷ rest) s =
    if ltb node.ended_at first.ended_at
    then put_first now node (first ∷ rest) s
    else record s { head = insert_after node first rest }

pub push_to_timer_list : ℕ → Timer → Timers → Timers
push_to_timer_list now node s = push_to now node s.head s

-- The first argument says what a read of `cur->next` gives once `cur` is freed, from what the field held;
-- `none` is a read that faults.
pub fire : (List Timer → Option (List Timer)) → ℕ → List Timer → Timers → Option Timers
fire freed_next now [] s = none
fire freed_next now (cur ∷ []) s = some (record s { head = []; ran = cur.proc ∷ s.ran })
fire freed_next now (cur ∷ next ∷ rest) s = elim (freed_next (next ∷ rest)) [
  | none ↦ none
  | some list ↦ some (record s {
    head = list;
    alarm_at = alarm now (sub32 next.ended_at cur.ended_at);
    ran = cur.proc ∷ s.ran;
  })
]

-- The handler; the alarm that brought it is gone. `none` is a fault, as for a null head.
pub alarm_proc : (List Timer → Option (List Timer)) → ℕ → Timers → Option Timers
alarm_proc freed_next now s = fire freed_next now s.head (record s { alarm_at = none })

-- The clock is read twice: for `started_at`, and in `push_to_timer_list`.
pub settimeout : ℕ → ℕ → ℕ → ℕ → Timers → Timers
settimeout started now seconds proc s =
    if seconds == 0
    then record s { ran = proc ∷ s.ran }
    else push_to_timer_list now
        (record { started_at = started; ended_at = (started + seconds) % 2 ^ 32; proc = proc }) s
