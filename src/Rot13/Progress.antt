-- ===== src/Rot13/Progress.antt =====
-- The end of apue.3e/advio/rot13c2.c: each operation that completes brings the outer loop nearer to its
-- `break`.
mod Steps
use mathlib.Core.Path.{subst}
use play_apue.Prelude.{
  ℕ, zero, suc, ◌+◌, ◌-◌, ◌*◌, ◌≤◌, ◌<◌, ◌≡◌, ◌≢◌, refl, ◌∙◌, ◌⊎◌, inl, inr, true, false, ◌&&◌,
  some, List, [], ◌∷◌, ◌++◌, arith, leb, ◌==◌, Bytes, length, replicate, Bool-cases, All,
}
use play_apue.Rot13.{
  nbuf, Rwop, unused, Buf, Report, complete, failed, Shared, Outcome, finished, report, reports,
  pass, rot13_loop, rot13, initial, start, read_pending, write_pending,
}
use play_apue.Rot13.Slices.{translated}
use play_apue.Rot13.Visit.{pending, Ensures}
use play_apue.Rot13.Loop.{count, AllReady, FitsAll, pass-FitsAll, start-FitsAll, rot13-output}
use play_apue.Rot13.Progress.Steps.{weight, weights, left, visit-Moves}

-- Nothing on the schedule fails.
abbrev pub Calm : List Report → Type 0
Calm = All (λ r. r ≢ failed)

report-Calm : (rs : List Report) → Calm rs → report rs ≢ failed
report-Calm [] h = cc
report-Calm (r ∷ rs) h = h.0

reports-Calm : (rs : List Report) → Calm rs → Calm (reports rs)
reports-Calm [] h = tt
reports-Calm (r ∷ rs) h = h.1

-- Every operation of the buffers is reported complete.
Prompt : List Report → List Buf → Type 0
Prompt rs [] = Unit
Prompt rs (b ∷ bufs) = (report rs ≡ complete) × Prompt (reports rs) bufs

-- Nothing is left to do, as far as the buffers can tell.
abbrev Idle : Bytes → List Buf → Shared → Type 0
Idle input [] s = Unit
Idle input (b ∷ bufs) s = left input (weights (b ∷ bufs)) s ≡ 0

weights-Idle : (input : Bytes) (bufs : List Buf) (s : Shared) → Idle input bufs s → weights bufs ≡ 0
weights-Idle input [] s h = refl
weights-Idle input (b ∷ bufs) s h = omega arith

pass_moves :
    (input : Bytes) (rs : List Report) (bufs : List Buf) (s : Shared)
    → Calm rs
    → AllReady input bufs
    → (bufs' : List Buf) × (s' : Shared) × (pass input rs bufs s ≡ some (bufs', s'))
      × (length bufs' ≡ length bufs)
      × (left input (weights bufs') s' ≤ left input (weights bufs) s)
      × (Prompt rs bufs
          → Idle input bufs s ⊎ (left input (weights bufs') s' < left input (weights bufs) s))
unfolding pass Prompt
pass_moves input rs [] s h f = ([], s, refl, refl, omega arith, λ _. inl tt)
pass_moves input rs (b ∷ bufs) s h f =
    let (b', s1, e, (le, lt)) = visit-Moves input b s (report rs) (report-Calm rs h) f.0 in
    let (bufs', s2, e', same, le', lt') =
      pass_moves input (reports rs) bufs s1 (reports-Calm rs h) f.1 in
    (
      b' ∷ bufs',
      s2,
      rw (e, e') refl,
      omega arith,
      omega arith,
      λ p. elim (lt p.0) [
        | inr less ↦ inr (omega arith)
        | inl idle ↦ elim (lt' p.1) [
          | inr less ↦ inr (omega arith)
          | inl idle' ↦ inl (omega (arith, weights-Idle input bufs s1 idle'))
        ]
      ],
    )

Prompt-replicate : (n : ℕ) (bufs : List Buf) → length bufs ≡ n → Prompt (replicate n complete) bufs
unfolding Prompt
Prompt-replicate n [] e = tt
Prompt-replicate zero (b ∷ bufs) e = absurd (omega arith)
Prompt-replicate (suc n) (b ∷ bufs) e = (refl, Prompt-replicate n bufs (omega arith))

Calm-replicate : (n : ℕ) → Calm (replicate n complete)
Calm-replicate zero = tt
Calm-replicate (suc n) = (cc, Calm-replicate n)

count-weights : (bufs : List Buf) → weights bufs ≡ 0 → count bufs ≡ 0
count-weights [] e = refl
count-weights (b ∷ bufs) e = go b.op (count-weights bufs (omega arith)) (omega arith)
  where
    go : (o : Rwop) → count bufs ≡ 0 → weight o ≡ 0 → pending o + count bufs ≡ 0
    go unused c w = omega arith
    go read_pending c w = absurd (omega arith)
    go write_pending c w = absurd (omega arith)

-- With nothing left the test of the `break` holds.
break_test :
    (input : Bytes) (bufs : List Buf) (s : Shared)
    → FitsAll input 0 0 ⊥ bufs s
    → left input (weights bufs) s ≡ 0
    → ((s.numop == 0) && leb (length input) s.off) ≡ true
break_test input bufs s f e =
    let c : count bufs ≡ 0 = count-weights bufs (omega arith) in
    let n : s.numop ≡ 0 = omega (arith, f.counted) in
    let o : length input ≤ s.off = omega arith in ground arith

Idle-left :
    (input : Bytes) (bufs : List Buf) (s : Shared)
    → length bufs ≡ nbuf
    → Idle input bufs s
    → left input (weights bufs) s ≡ 0
Idle-left input [] s e h = absurd (omega arith)
Idle-left input (b ∷ bufs) s e h = h

abbrev pub all_complete : List Report
all_complete = replicate nbuf complete

-- A schedule on which the loop comes to its `break`.
abbrev Ends : Outcome → Type 0
Ends o = (t : Shared) × (o ≡ finished t)

module _ (input : Bytes) (rs : List Report) (rest : List (List Report)) (bufs bufs' : List Buf)
    (s s' : Shared) (p : pass input rs bufs s ≡ some (bufs', s')) where
  rot13_loop_break :
      ((s'.numop == 0) && leb (length input) s'.off) ≡ true
      → rot13_loop input (rs ∷ rest) bufs s ≡ finished s'
  unfolding rot13_loop
  rot13_loop_break e = rw (p, rot13_loop) (rw e refl)

  rot13_loop_again :
      ((s'.numop == 0) && leb (length input) s'.off) ≡ false
      → rot13_loop input (rs ∷ rest) bufs s ≡ rot13_loop input rest bufs' s'
  unfolding rot13_loop
  rot13_loop_again e = rw (p, rot13_loop) (rw e refl)

module _ (input : Bytes) where
  rot13_loop-Ends :
      (n : ℕ) (bufs : List Buf) (s : Shared)
      → FitsAll input 0 0 ⊥ bufs s
      → length bufs ≡ nbuf
      → left input (weights bufs) s < n
      → Ends (rot13_loop input (replicate n all_complete) bufs s)
  unfolding rot13_loop
  rot13_loop-Ends zero bufs s f e h = absurd (omega arith)
  rot13_loop-Ends (suc n) bufs s f e h =
      let (bufs', s', p, same, le, lt) =
        pass_moves input all_complete bufs s (Calm-replicate nbuf) f.ready in
      let f' : FitsAll input 0 0 ⊥ bufs' s' =
        subst (Ensures (FitsAll input 0 0 ⊥)) p (pass-FitsAll input 0 0 ⊥ all_complete bufs s f) in
      elim (Bool-cases ((s'.numop == 0) && leb (length input) s'.off)) [
        | inl done ↦ (
          s',
          rot13_loop_break input all_complete (replicate n all_complete) bufs bufs' s s' p done,
        )
        | inr more ↦
            let less : left input (weights bufs') s' < n =
              elim (lt (Prompt-replicate nbuf bufs e)) [
                | inr l ↦ omega arith
                | inl idle ↦ absurd (
                    let z = Idle-left input bufs s e idle in
                    let b = break_test input bufs' s' f' (omega arith) in cc)
              ] in
            let (t, q) = rot13_loop-Ends n bufs' s' f' (same ∙ e) less in
            (
              t,
              rot13_loop_again input all_complete (replicate n all_complete) bufs bufs' s s' p more
                  ∙ q,
            )
      ]

  rot13_loop-Ends_after :
      (before : List (List Report)) (n : ℕ) (bufs : List Buf) (s : Shared)
      → All Calm before
      → FitsAll input 0 0 ⊥ bufs s
      → length bufs ≡ nbuf
      → left input (weights bufs) s < n
      → Ends (rot13_loop input (before ++ replicate n all_complete) bufs s)
  unfolding rot13_loop
  rot13_loop-Ends_after [] n bufs s c f e h = rot13_loop-Ends n bufs s f e h
  rot13_loop-Ends_after (rs ∷ before) n bufs s c f e h =
      let (bufs', s', p, same, le, lt) = pass_moves input rs bufs s c.0 f.ready in
      let f' : FitsAll input 0 0 ⊥ bufs' s' =
        subst (Ensures (FitsAll input 0 0 ⊥)) p (pass-FitsAll input 0 0 ⊥ rs bufs s f) in
      elim (Bool-cases ((s'.numop == 0) && leb (length input) s'.off)) [
        | inl done ↦ (
          s',
          rot13_loop_break input rs (before ++ replicate n all_complete) bufs bufs' s s' p done,
        )
        | inr more ↦
            let (t, q) = rot13_loop-Ends_after before n bufs' s' c.1 f' (same ∙ e) (omega arith) in
            (
              t,
              rot13_loop_again input rs (before ++ replicate n all_complete) bufs bufs' s s' p more
                  ∙ q,
            )
      ]

  -- After any passes in which nothing fails, three passes for each byte of the input and one more
  -- in which all pending operations are complete bring the loop to its break, with the output as
  -- it must be.
  pub rot13_ends :
      (before : List (List Report))
      → All Calm before
      → (t : Shared) × (rot13 input (before ++ replicate (3 * length input + 1) all_complete)
          ≡ finished t)
        × ((k : ℕ) → t.output k ≡ translated input k)
  unfolding rot13
  rot13_ends before c =
      let (t, e) =
        rot13_loop-Ends_after before (3 * length input + 1) (replicate nbuf initial) start c
          (start-FitsAll input 0) refl (omega arith) in
      (t, e, rot13-output input (before ++ replicate (3 * length input + 1) all_complete) t e)
