-- ===== src/Rot13/Progress/Steps.antt =====
-- What each step of apue.3e/advio/rot13c2.c adds to the end: `visit` on one buffer lowers what is left to
-- do, or leaves it where the operation is still pending.
use mathlib.Core.Path.{subst}
use play_apue.Prelude.{
  ℕ, ◌+◌, ◌-◌, ◌*◌, ◌≤◌, ◌<◌, ◌≡◌, ◌≢◌, refl, ◌⊎◌, inl, inr, true, false, ◌&&◌, not, Option, some,
  List, [], ◌∷◌, arith, ltb, ◌==◌, Bytes, length, Bool-cases, split_le, length-take, length-drop,
  take, drop, map,
}
use play_apue.Rot13.{
  bsz, ofd, translate, Rwop, unused, Buf, Report, in_progress, complete, failed, Shared, visit,
  visit_op, start_read, read_done, write_done, on_report, read_pending, write_pending,
}
use play_apue.Rot13.Visit.{Ready, ReadyOp}

-- The steps that an operation still needs.
abbrev pub weight : Rwop → ℕ
weight unused = 0
weight read_pending = 2
weight write_pending = 1

abbrev pub weights : List Buf → ℕ
weights [] = 0
weights (b ∷ bufs) = weight b.op + weights bufs

-- What is left to do: three steps for each byte not asked for, and those of the pending operations.
abbrev pub left : Bytes → ℕ → Shared → ℕ
left input w s = 3 * (length input - s.off) + w

-- A step that does not fail and does not add work; a complete report lowers it where there is any.
abbrev Lowers : Bytes → ℕ → Shared → Report → ℕ → Shared → Type 0
Lowers input w s r w' s' =
    (left input w' s' ≤ left input w s)
    × (r ≡ complete → (left input w s ≡ 0) ⊎ (left input w' s' < left input w s))

module _ (input : Bytes) (b : Buf) (s : Shared) where
  abbrev Moves : Rwop → Report → Option (Buf × Shared) → Type 0
  Moves o r result =
      (b' : Buf) × (s' : Shared) × (result ≡ some (b', s'))
      × Lowers input (weight o) s r (weight b'.op) s'

  start_read-Moves : (r : Report) → b.op ≡ unused → Moves unused r (some (start_read input b s))
  unfolding start_read
  start_read-Moves r e = elim (Bool-cases (ltb s.off (length input))) [
    | inl more ↦ (
      (start_read input b s).0,
      (start_read input b s).1,
      refl,
      (rw more (omega (arith, less more)), λ _. rw more (inr (omega (arith, less more)))),
    )
    | inr end ↦ (
      (start_read input b s).0,
      (start_read input b s).1,
      refl,
      (rw (end, e) (omega arith), λ _. rw (end, e) (inl (omega (arith, past end)))),
    )
  ]
    where
      less : ltb s.off (length input) ≡ true → s.off < length input
      less h = ground arith

      past : ltb s.off (length input) ≡ false → length input ≤ s.off
      past h = ground arith

  read_done-Moves :
      Ready input b → b.op ≡ read_pending → Moves read_pending complete (read_done input b s)
  unfolding read_done
  read_done-Moves f e =
      let ready = subst (λ o. ReadyOp o input b) e f in
      let n = length (take b.aio_nbytes (drop b.aio_offset input)) in
      elim (Bool-cases (not (n == bsz) && not b.last)) [
        | inl short ↦ absurd (full ready.0 ready.1 short)
        | inr fine ↦ (
          record b {
            content = map translate (take b.aio_nbytes (drop b.aio_offset input));
            op = write_pending;
            aio_fildes = ofd;
            aio_nbytes = n;
          },
          s,
          rw fine refl,
          (omega arith, λ _. inr (omega arith)),
        )
      ]
    where
      full :
          b.aio_nbytes ≡ bsz
          → (length input ≤ b.aio_offset + bsz → b.last ≡ true)
          → ((not (length (take b.aio_nbytes (drop b.aio_offset input)) == bsz) && not b.last)
              ≡ true)
          → ⊥
      full all last short = elim (split_le (length input) (b.aio_offset + bsz)) [
        | inl end ↦ ground (arith, last end)
        | inr within ↦ ground (
          arith,
          length-take b.aio_nbytes (drop b.aio_offset input),
          length-drop b.aio_offset input,
        )
      ]

  write_done-Moves : Moves write_pending complete (write_done b s)
  unfolding write_done
  write_done-Moves = (_, _, refl, (omega arith, λ _. inr (omega arith)))

  on_report-Moves :
      (r : Report) (o : Rwop) (completed : Option (Buf × Shared))
      → b.op ≡ o
      → r ≢ failed
      → Moves o complete completed
      → Moves o r (on_report r b s completed)
  unfolding on_report
  on_report-Moves in_progress o completed e h m = (b, s, refl, (rw e (omega arith), λ q. cc))
  on_report-Moves complete o completed e h m = m
  on_report-Moves failed o completed e h m = absurd (h refl)

  visit_op-Moves :
      (r : Report) (o : Rwop)
      → b.op ≡ o
      → r ≢ failed
      → Ready input b
      → Moves o r (visit_op o input r b s)
  unfolding visit_op
  visit_op-Moves r unused e h f = start_read-Moves r e
  visit_op-Moves r read_pending e h f =
      on_report-Moves r read_pending (read_done input b s) e h (read_done-Moves f e)
  visit_op-Moves r write_pending e h f =
      on_report-Moves r write_pending (write_done b s) e h write_done-Moves

  pub visit-Moves : (r : Report) → r ≢ failed → Ready input b → Moves b.op r (visit input r b s)
  unfolding visit
  visit-Moves r h f = visit_op-Moves r b.op refl h f
