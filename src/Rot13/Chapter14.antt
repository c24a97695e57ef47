-- ===== src/Rot13/Chapter14.antt =====
-- ch14/14_21.c: the same program, whose main exits after its first wait. The body of the inner loop is
-- that of apue.3e/advio/rot13c2.c, and so is the model's.
use play_apue.Prelude.{
  ℕ, ◌≤◌, ◌<◌, ◌≡◌, refl, ◌∙◌, ap, true, false, none, some, List, [], ◌∷◌, arith, leb, ◌==◌, Bytes,
  length, replicate, All,
}
use play_apue.Rot13.{
  nbuf, unused, Buf, Report, Shared, Outcome, finished, quit, running, start_read, visit_op, visit,
  report, reports, pass, initial, start,
}

-- The outer loop: where operations are pending, `aio_suspend` and then `exit(0)`.
pub exiting_loop : Bytes → List (List Report) → List Buf → Shared → Outcome
exiting_loop input [] bufs s = running
exiting_loop input (rs ∷ schedule) bufs s = elim (pass input rs bufs s) [
  | none ↦ quit
  | some (bufs', s') ↦ elim (s'.numop == 0) [
    | false ↦ finished s'
    | true ↦ elim (leb (length input) s'.off) [
      | true ↦ finished s'
      | false ↦ exiting_loop input schedule bufs' s'
    ]
  ]
]

-- A visit of an unused buffer starts a read where the input has more; it writes nothing.
visit_unused :
    (input : Bytes) (r : Report) (b : Buf) (s : Shared)
    → b.op ≡ unused
    → (b' : Buf) × (s' : Shared) × (visit input r b s ≡ some (b', s'))
      × (s'.output ≡ s.output)
      × (s.numop ≤ s'.numop)
      × (s.off < length input → s.numop < s'.numop)
unfolding visit visit_op start_read
visit_unused input r b s e = (
  (start_read input b s).0,
  (start_read input b s).1,
  rw e refl,
  ground arith,
  ground arith,
  λ h. ground arith,
)

pass_unused :
    (input : Bytes) (rs : List Report) (bufs : List Buf) (s : Shared)
    → All (λ b. b.op ≡ unused) bufs
    → (bufs' : List Buf) × (s' : Shared) × (pass input rs bufs s ≡ some (bufs', s'))
      × (s'.output ≡ s.output)
      × (s.numop ≤ s'.numop)
      × (s.off < length input → 0 < length bufs → s.numop < s'.numop)
unfolding pass
pass_unused input rs [] s h = ([], s, refl, refl, omega arith, λ _ k. absurd (omega arith))
pass_unused input rs (b ∷ bufs) s h =
    let (b', s1, e, same, le, lt) = visit_unused input (report rs) b s h.0 in
    let (bufs', s2, e', same', le', lt') = pass_unused input (reports rs) bufs s1 h.1 in
    (b' ∷ bufs', s2, rw (e, e') refl, same' ∙ same, omega arith, λ more _. omega (arith, lt more))

-- On an input that is not empty, the main of ch14/14_21.c exits with nothing written, since it
-- exits after its first wait.
pub exiting_loop_lost :
    (input : Bytes) (rs : List Report) (schedule : List (List Report))
    → 0 < length input
    → (t : Shared) × (exiting_loop input (rs ∷ schedule) (replicate nbuf initial) start
        ≡ finished t)
      × ((k : ℕ) → t.output k ≡ none)
unfolding exiting_loop
exiting_loop_lost input rs schedule h =
    let (bufs', s', e, same, le, lt) =
      pass_unused input rs (replicate nbuf initial) start
        (refl, (refl, (refl, (refl, (refl, (refl, (refl, (refl, tt)))))))) in
    let n : 0 < s'.numop = lt h (omega arith) in
    let busy : (s'.numop == 0) ≡ false = ground arith in
    (s', rw (e, exiting_loop) (rw busy refl), λ k. ap (λ f. f k) same)
