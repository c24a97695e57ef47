-- ===== src/Timers/Examples.antt =====
-- The theorems on the timers of ch10/p5.c at the timers of its `main`: 2, 10 and 4 seconds.
use mathlib.Core.List.{Perm}
use play_apue.Prelude.{ℕ, refl, some, [], ◌∷◌, arith}
use play_apue.Timers.{Timer, Timers, push_to_timer_list, settimeout}
use play_apue.Timers.Order.{IsSorted, push_to_timer_list-IsSorted}
use play_apue.Timers.Alarm.{IsArmed, settimeout-IsArmed}

abbrev at : ℕ → Timer
at n = record { started_at = 100; ended_at = n; proc = n }

abbrev two : Timers
two = record { head = at 102 ∷ at 110 ∷ []; alarm_at = some 102; ran = [] }

push_to_timer_list-IsSorted_example :
    IsSorted (push_to_timer_list 100 (at 104) two).head
    × Perm (push_to_timer_list 100 (at 104) two).head (at 104 ∷ two.head)
push_to_timer_list-IsSorted_example = push_to_timer_list-IsSorted 100 (at 104) two (omega arith)

settimeout-IsArmed_example : IsArmed (settimeout 100 101 4 7 two)
settimeout-IsArmed_example =
    settimeout-IsArmed 100 101 4 7 two (omega arith) (λ _. omega arith) (omega arith) refl
