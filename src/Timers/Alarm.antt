-- ===== src/Timers/Alarm.antt =====
-- The alarm of ch10/p5.c: it is set for the end of the first timer, but for two cases.
use play_apue.Prelude.{
  ℕ, zero, suc, ◌+◌, ◌^◌, ◌≤◌, ◌<◌, ◌≡◌, ◌≢◌, refl, ap, sym, ◌∙◌, Option, none, some, List, [], ◌∷◌,
  arith, ltb, ◌==◌, Bool-cases, inl, inr, false,
}
use mathlib.Core.Path.{subst}
use play_apue.Timers.{
  Timer, Timers, sub32, alarm, push_to, push_to_timer_list, settimeout, fire, alarm_proc,
}
use play_apue.Timers.Order.{insert_after_head}

-- The alarm comes at the end of the first timer, and where there is none there is no alarm.
abbrev pub ArmedFor : List Timer → Option ℕ → Type 0
ArmedFor [] a = a ≡ none
ArmedFor (first ∷ rest) a = a ≡ some first.ended_at

abbrev pub IsArmed : Timers → Type 0
IsArmed s = ArmedFor s.head s.alarm_at

alarm-sub32 : (now at : ℕ) → now < at → at < 2 ^ 32 → alarm now (sub32 at now) ≡ some at
alarm-sub32 now at h k = ground arith

push_to-IsArmed :
    (now : ℕ) (node : Timer) (list : List Timer) (s : Timers)
    → now < node.ended_at
    → node.ended_at < 2 ^ 32
    → ArmedFor list s.alarm_at
    → IsArmed (push_to now node list s)
unfolding push_to
push_to-IsArmed now node [] s lt small h = alarm-sub32 now node.ended_at lt small
push_to-IsArmed now node (first ∷ rest) s lt small h =
    elim (Bool-cases (ltb node.ended_at first.ended_at)) [
      | inl q ↦ rw q (alarm-sub32 now node.ended_at lt small)
      | inr q ↦
          let (t, e) = insert_after_head node first rest in
          rw q (subst (λ l. ArmedFor l s.alarm_at) (sym e) h)
    ]

-- Where the alarm is set for the end of the first timer (none for no timer), it is so after a
-- settimeout whose end the clock can hold, where the second reading of the clock is not before the
-- first and, unless the number of seconds is 0, before the end of the new timer.
pub settimeout-IsArmed :
    (started now seconds proc : ℕ) (s : Timers)
    → started ≤ now
    → (seconds ≢ 0 → now < started + seconds)
    → started + seconds < 2 ^ 32
    → IsArmed s
    → IsArmed (settimeout started now seconds proc s)
unfolding settimeout push_to_timer_list
settimeout-IsArmed started now seconds proc s le before fits h = elim (Bool-cases (seconds == 0)) [
  | inl q ↦ rw q h
  | inr q ↦
      rw q (push_to-IsArmed now _ s.head s (omega (arith, before (ground arith))) (omega arith) h)
]

-- Where the second reading is already the end of the only timer, it has no alarm.
pub settimeout_lost :
    (started seconds proc : ℕ) (s : Timers)
    → s.head ≡ []
    → 0 < seconds
    → started + seconds < 2 ^ 32
    → (settimeout started (started + seconds) seconds proc s).alarm_at ≡ none
unfolding settimeout push_to_timer_list push_to
settimeout_lost started seconds proc s h l fits =
    let q : (seconds == 0) ≡ false = ground arith in rw q (rw h (ground arith))

-- Each timer ends after the one before it, and within the clock.
abbrev pub Spaced : List Timer → Type 0
Spaced [] = Unit
Spaced (cur ∷ []) = Unit
Spaced (cur ∷ next ∷ rest) =
    (cur.ended_at < next.ended_at) × (next.ended_at < 2 ^ 32) × Spaced (next ∷ rest)

-- A number of alarms in turn, each of which comes when it was set to; with none set nothing happens.
unfoldable pub deliver : (List Timer → Option (List Timer)) → ℕ → Timers → Option Timers
deliver freed_next zero s = some s
deliver freed_next (suc n) s = elim s.alarm_at [
  | none ↦ some s
  | some now ↦ elim (alarm_proc freed_next now s) [ none ↦ none | some t ↦ deliver freed_next n t ]
]

-- The callbacks of the timers, put before those that ran.
abbrev pub ran_all : List Timer → List ℕ → List ℕ
ran_all [] ran = ran
ran_all (t ∷ ts) ran = ran_all ts (t.proc ∷ ran)

abbrev pub all_fired : Timers → Timers
all_fired s = record { head = []; alarm_at = none; ran = ran_all s.head s.ran }

-- Where the first two timers end at the same time, alarm_proc leaves the second on the list with
-- no alarm set.
pub alarm_proc_lost :
    (freed_next : List Timer → Option (List Timer)) (now : ℕ) (cur next : Timer) (rest : List Timer)
    (s : Timers)
    → freed_next (next ∷ rest) ≡ some (next ∷ rest)
    → s.head ≡ cur ∷ next ∷ rest
    → cur.ended_at ≡ next.ended_at
    → (t : Timers) × (alarm_proc freed_next now s ≡ some t)
      × (t.head ≡ next ∷ rest)
      × (t.alarm_at ≡ none)
unfolding alarm_proc fire
alarm_proc_lost freed_next now cur next rest s keeps h e = (
  record s {
    head = next ∷ rest;
    alarm_at = alarm now (sub32 next.ended_at cur.ended_at);
    ran = cur.proc ∷ s.ran;
  },
  ap (λ list. fire freed_next now list (record s { alarm_at = none })) h ∙ rw (fire, keeps) refl,
  refl,
  ground arith,
)
