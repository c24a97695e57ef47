-- ===== src/Rot13/Visit.antt =====
-- The invariant of apue.3e/advio/rot13c2.c, and the body of its inner loop. Every byte of the input
-- before `off` is written, or belongs to a buffer that has an operation pending.
use mathlib.Core.Path.{subst}
use play_apue.Prelude.{
  ℕ, ◌+◌, ◌≤◌, ◌<◌, ◌≡◌, refl, sym, ◌⊎◌, inl, inr, true, Option, none, some, arith, ltb, leb, ◌==◌,
  Bytes, length, take, drop, take_all, Bool-cases, split_le, if◌then◌else◌, not, ◌&&◌, ◌∙◌,
}
use play_apue.Rot13.{
  bsz, Rwop, unused, read_pending, write_pending, Buf, Report, in_progress, complete, failed,
  Shared, start_read, read_done, write_done, on_report, visit_op, visit,
}
use play_apue.Rot13.Slices.{translated, block, write_at-block, write_at-block_within, length-map}

-- How many of the operations of a buffer are pending: none or one.
abbrev pub pending : Rwop → ℕ
pending unused = 0
pending read_pending = 1
pending write_pending = 1

-- The byte `k` belongs to the pending operation of a buffer.
abbrev pub HoldsOp : Rwop → Buf → ℕ → Type 0
HoldsOp unused b k = ⊥
HoldsOp read_pending b k = (b.aio_offset ≤ k) × (k < b.aio_offset + bsz)
HoldsOp write_pending b k = (b.aio_offset ≤ k) × (k < b.aio_offset + bsz)

abbrev pub Holds : Buf → ℕ → Type 0
Holds b k = HoldsOp b.op b k

-- A pending read asks for a block and knows whether it is the last one; a pending write carries the
-- translated block.
abbrev pub ReadyOp : Rwop → Bytes → Buf → Type 0
ReadyOp unused input b = Unit
ReadyOp read_pending input b =
    (b.aio_nbytes ≡ bsz) × (length input ≤ b.aio_offset + bsz → b.last ≡ true)
ReadyOp write_pending input b =
    (b.content ≡ block input b.aio_offset) × (b.aio_nbytes ≡ length b.content)

abbrev pub Ready : Bytes → Buf → Type 0
Ready input b = ReadyOp b.op input b

-- What holds of a visit's result, where it does not exit.
abbrev pub Ensures {ℓ} : {A : Type 0} → (A → Shared → Type ℓ) → Option (A × Shared) → Type ℓ
Ensures P none = Unit
Ensures P (some (a, s)) = P a s

-- The invariant at the byte `k`, as one buffer sees it: `base` operations of other buffers are
-- pending, and `Others` says that one of those holds the byte.
pub record Fits (input : Bytes) (k base : ℕ) (Others : Type 0) (b : Buf) (s : Shared) : Type 0 where
  pub ready : Ready input b
  pub counted : s.numop ≡ base + pending b.op
  pub covered :
      k < s.off → k < length input → (s.output k ≡ translated input k) ⊎ (Holds b k ⊎ Others)
  pub good : (s.output k ≡ none) ⊎ (s.output k ≡ translated input k)

module _ (input : Bytes) (k base : ℕ) (Others : Type 0) (b : Buf) (s : Shared) where
  start_read-Fits :
      b.op ≡ unused
      → Fits input k base Others b s
      → Fits input k base Others (start_read input b s).0 (start_read input b s).1
  unfolding start_read
  start_read-Fits e f = elim (Bool-cases (ltb s.off (length input))) [
    | inr end ↦ rw end f
    | inl more ↦
        let counted : s.numop ≡ base + pending unused =
          subst (λ o. s.numop ≡ base + pending o) e f.counted in
        rw more (record {
          ready = (refl, λ h. last_set h);
          counted = omega arith;
          covered = λ h size. elim (split_le s.off k) [
            | inl here ↦ inr (inl (here, h))
            | inr before ↦ elim (f.covered before size) [
              | inl done ↦ inl done
              | inr (inl held) ↦ absurd (subst (λ o. HoldsOp o b k) e held)
              | inr (inr other) ↦ inr (inr other)
            ]
          ];
          good = f.good;
        })
  ]
    where
      last_set :
          length input ≤ s.off + bsz
          → (if leb (length input) (s.off + bsz) then true else b.last) ≡ true
      last_set h = ground arith

  read_done-Fits :
      b.op ≡ read_pending
      → Fits input k base Others b s
      → Ensures (Fits input k base Others) (read_done input b s)
  unfolding read_done block
  read_done-Fits e f =
      let ready = subst (λ o. ReadyOp o input b) e f.ready in
      let counted : s.numop ≡ base + 1 = subst (λ o. s.numop ≡ base + pending o) e f.counted in
      rw ready.0
        (elim (Bool-cases
          (not (length (take bsz (drop b.aio_offset input)) == bsz) && not b.last)) [
            | inl short ↦ rw short tt
            | inr fine ↦ rw fine (record {
              ready = (refl, sym (length-map (take bsz (drop b.aio_offset input))));
              counted = counted;
              covered = λ h size. elim (f.covered h size) [
                | inl done ↦ inl done
                | inr (inl held) ↦ inr (inl (subst (λ o. HoldsOp o b k) e held))
                | inr (inr other) ↦ inr (inr other)
              ];
              good = f.good;
            })
          ])

  write_done-Fits :
      b.op ≡ write_pending
      → Fits input k base Others b s
      → Ensures (Fits input k base Others) (write_done b s)
  unfolding write_done
  write_done-Fits e f =
      let ready = subst (λ o. ReadyOp o input b) e f.ready in
      let counted : s.numop ≡ base + 1 = subst (λ o. s.numop ≡ base + pending o) e f.counted in
      rw (ready.1, take_all b.content, ready.0)
        (record {
          ready = tt;
          counted = omega arith;
          covered = λ h size. elim (f.covered h size) [
            | inl done ↦ elim (write_at-block input b.aio_offset k s.output) [
              | inl same ↦ inl (same ∙ done)
              | inr right ↦ inl right
            ]
            | inr (inl held) ↦
                let held' = subst (λ o. HoldsOp o b k) e held in
                inl (write_at-block_within input b.aio_offset k s.output held'.0 held'.1 size)
            | inr (inr other) ↦ inr (inr other)
          ];
          good = elim (write_at-block input b.aio_offset k s.output) [
            | inl same ↦ elim f.good [ inl n ↦ inl (same ∙ n) | inr t ↦ inr (same ∙ t) ]
            | inr right ↦ inr right
          ];
        })

  on_report-Fits :
      (r : Report) (completed : Option (Buf × Shared))
      → Fits input k base Others b s
      → Ensures (Fits input k base Others) completed
      → Ensures (Fits input k base Others) (on_report r b s completed)
  unfolding on_report
  on_report-Fits in_progress completed f d = f
  on_report-Fits complete completed f d = d
  on_report-Fits failed completed f d = tt

  visit_op-Fits :
      (r : Report) (o : Rwop)
      → b.op ≡ o
      → Fits input k base Others b s
      → Ensures (Fits input k base Others) (visit_op o input r b s)
  unfolding visit_op
  visit_op-Fits r unused e f = start_read-Fits e f
  visit_op-Fits r read_pending e f = on_report-Fits r (read_done input b s) f (read_done-Fits e f)
  visit_op-Fits r write_pending e f = on_report-Fits r (write_done b s) f (write_done-Fits e f)

  -- The body of the loop keeps the invariant, whatever is reported.
  pub visit-Fits :
      (r : Report)
      → Fits input k base Others b s
      → Ensures (Fits input k base Others) (visit input r b s)
  unfolding visit
  visit-Fits r f = visit_op-Fits r b.op refl f
