-- ===== src/Rot13/Loop.antt =====
-- A whole run of apue.3e/advio/rot13c2.c: what the output holds at the `break` of the outer loop.
use mathlib.Core.Path.{subst}
use play_apue.Prelude.{
  ℕ, ◌+◌, ◌<◌, ◌≡◌, refl, ◌∙◌, ◌⊎◌, inl, inr, true, ◌&&◌, Option, none, some, List, [], ◌∷◌, arith,
  leb, ◌==◌, Bytes, length, replicate, Bool-cases, Option-cases, split_le, get_elem?-none, ap, sym,
}
use play_apue.Rot13.{
  nbuf, Rwop, unused, Buf, Report, Shared, Outcome, finished, quit, running, visit, visit_then,
  report, reports, pass, rot13_loop, read_pending, write_pending, rot13, initial, start,
}
use play_apue.Rot13.Slices.{translated, translate?}
use play_apue.Rot13.Visit.{pending, HoldsOp, Holds, Ready, Ensures, Fits, visit-Fits}

abbrev pub count : List Buf → ℕ
count [] = 0
count (b ∷ bufs) = pending b.op + count bufs

abbrev pub Held : List Buf → ℕ → Type 0
Held [] k = ⊥
Held (b ∷ bufs) k = Holds b k ⊎ Held bufs k

abbrev pub AllReady : Bytes → List Buf → Type 0
AllReady input [] = Unit
AllReady input (b ∷ bufs) = Ready input b × AllReady input bufs

-- The invariant at the byte `k` for a list of buffers beside others.
pub record FitsAll (input : Bytes) (k base : ℕ) (Others : Type 0) (bufs : List Buf) (s : Shared)
    : Type 0 where
  pub ready : AllReady input bufs
  pub counted : s.numop ≡ base + count bufs
  pub covered :
      k < s.off → k < length input → (s.output k ≡ translated input k) ⊎ (Held bufs k ⊎ Others)
  pub good : (s.output k ≡ none) ⊎ (s.output k ≡ translated input k)

module _ (input : Bytes) (k base : ℕ) (Others : Type 0) (b : Buf) (bufs : List Buf)
    (s : Shared) where
  -- The first buffer, beside those behind it and the others.
  first :
      FitsAll input k base Others (b ∷ bufs) s
      → Fits input k (base + count bufs) (Held bufs k ⊎ Others) b s
  first f = record {
    ready = f.ready.0;
    counted = omega (arith, f.counted);
    covered = λ h size. elim (f.covered h size) [
      | inl done ↦ inl done
      | inr (inl (inl mine)) ↦ inr (inl mine)
      | inr (inl (inr rest)) ↦ inr (inr (inl rest))
      | inr (inr other) ↦ inr (inr (inr other))
    ];
    good = f.good;
  }

  -- The buffers behind the first, beside it and the others.
  behind :
      AllReady input bufs
      → Fits input k (base + count bufs) (Held bufs k ⊎ Others) b s
      → FitsAll input k (base + pending b.op) (Holds b k ⊎ Others) bufs s
  behind r f = record {
    ready = r;
    counted = omega (arith, f.counted);
    covered = λ h size. elim (f.covered h size) [
      | inl done ↦ inl done
      | inr (inl mine) ↦ inr (inr (inl mine))
      | inr (inr (inl rest)) ↦ inr (inl rest)
      | inr (inr (inr other)) ↦ inr (inr (inr other))
    ];
    good = f.good;
  }

  both :
      Ready input b
      → FitsAll input k (base + pending b.op) (Holds b k ⊎ Others) bufs s
      → FitsAll input k base Others (b ∷ bufs) s
  both r f = record {
    ready = (r, f.ready);
    counted = omega (arith, f.counted);
    covered = λ h size. elim (f.covered h size) [
      | inl done ↦ inl done
      | inr (inl rest) ↦ inr (inl (inr rest))
      | inr (inr (inl mine)) ↦ inr (inl (inl mine))
      | inr (inr (inr other)) ↦ inr (inr other)
    ];
    good = f.good;
  }

module _ (input : Bytes) (k base : ℕ) (Others : Type 0) where
  visit_then-FitsAll :
      (bufs : List Buf) (o : Option (Buf × Shared)) (next : Shared → Option (List Buf × Shared))
      → AllReady input bufs
      → Ensures (Fits input k (base + count bufs) (Held bufs k ⊎ Others)) o
      → ((b : Buf) (s : Shared)
          → FitsAll input k (base + pending b.op) (Holds b k ⊎ Others) bufs s
          → Ensures (FitsAll input k (base + pending b.op) (Holds b k ⊎ Others)) (next s))
      → Ensures (FitsAll input k base Others) (visit_then o next)
  visit_then-FitsAll bufs none next r f go = tt
  visit_then-FitsAll bufs (some (b, s)) next r f go =
      joined (next s) (go b s (behind input k base Others b bufs s r f))
    where
      joined :
          (o : Option (List Buf × Shared))
          → Ensures (FitsAll input k (base + pending b.op) (Holds b k ⊎ Others)) o
          → Ensures
              (FitsAll input k base Others)
              (elim o [ none ↦ none | some (bufs, s') ↦ some (b ∷ bufs, s') ])
      joined none g = tt
      joined (some (bufs', s')) g = both input k base Others b bufs' s' f.ready g

pub pass-FitsAll :
    (input : Bytes) (k base : ℕ) (Others : Type 0) (rs : List Report) (bufs : List Buf) (s : Shared)
    → FitsAll input k base Others bufs s
    → Ensures (FitsAll input k base Others) (pass input rs bufs s)
unfolding pass
pass-FitsAll input k base Others rs [] s f = f
pass-FitsAll input k base Others rs (b ∷ bufs) s f =
    visit_then-FitsAll input k base Others bufs (visit input (report rs) b s)
      (pass input (reports rs) bufs) f.ready.1
      (visit-Fits input k (base + count bufs) (Held bufs k ⊎ Others) b s (report rs)
        (first input k base Others b bufs s f))
      λ b' s'.
        pass-FitsAll input k (base + pending b'.op) (Holds b' k ⊎ Others) (reports rs) bufs s'

-- With no operation pending, no buffer holds a byte.
count-Held : (bufs : List Buf) (k : ℕ) → count bufs ≡ 0 → Held bufs k → ⊥
count-Held [] k e h = h
count-Held (b ∷ bufs) k e (inl mine) = no_holder b.op refl mine
  where
    no_holder : (o : Rwop) → b.op ≡ o → HoldsOp o b k → ⊥
    no_holder unused q h = h
    no_holder read_pending q h =
        absurd (let e' = subst (λ p. pending p + count bufs ≡ 0) q e in omega arith)
    no_holder write_pending q h =
        absurd (let e' = subst (λ p. pending p + count bufs ≡ 0) q e in omega arith)
count-Held (b ∷ bufs) k e (inr rest) = count-Held bufs k (omega arith) rest

-- At the `break` the byte `k` is right.
break_right :
    (input : Bytes) (k : ℕ) (bufs : List Buf) (s : Shared)
    → FitsAll input k 0 ⊥ bufs s
    → ((s.numop == 0) && leb (length input) s.off) ≡ true
    → s.output k ≡ translated input k
break_right input k bufs s f e = elim (split_le (length input) k) [
  | inl past ↦
      let q : translated input k ≡ none = ap translate? (get_elem?-none input k past) in
      elim f.good [ inl n ↦ n ∙ sym q | inr t ↦ t ]
  | inr within ↦ elim (f.covered (ground arith) within) [
    | inl done ↦ done
    | inr (inl held) ↦ absurd (count-Held bufs k (ground (arith, f.counted)) held)
    | inr (inr other) ↦ absurd other
  ]
]

abbrev Finishes {ℓ} : (Shared → Type ℓ) → Outcome → Type ℓ
Finishes P (finished s) = P s
Finishes P quit = Unit
Finishes P running = Unit

rot13_loop-Finishes :
    (input : Bytes) (k : ℕ) (schedule : List (List Report)) (bufs : List Buf) (s : Shared)
    → FitsAll input k 0 ⊥ bufs s
    → Finishes (λ t. t.output k ≡ translated input k) (rot13_loop input schedule bufs s)
unfolding rot13_loop
rot13_loop-Finishes input k [] bufs s f = tt
rot13_loop-Finishes input k (rs ∷ schedule) bufs s f = elim (Option-cases (pass input rs bufs s)) [
  | inl e ↦ rw (e, Finishes) tt
  | inr ((bufs', s'), e) ↦
      let f' : FitsAll input k 0 ⊥ bufs' s' =
        subst (Ensures (FitsAll input k 0 ⊥)) e (pass-FitsAll input k 0 ⊥ rs bufs s f) in
      rw (e, Finishes)
        (elim (Bool-cases ((s'.numop == 0) && leb (length input) s'.off)) [
          | inl done ↦ rw (done, Finishes) (break_right input k bufs' s' f' done)
          | inr more ↦ rw (more, Finishes) (rot13_loop-Finishes input k schedule bufs' s' f')
        ])
]

pub start-FitsAll : (input : Bytes) (k : ℕ) → FitsAll input k 0 ⊥ (replicate nbuf initial) start
start-FitsAll input k = record {
  ready = (tt, (tt, (tt, (tt, (tt, (tt, (tt, (tt, tt))))))));
  counted = refl;
  covered = λ h size. absurd (omega arith);
  good = inl refl;
}

-- Whatever the order in which the operations complete, where the outer loop comes to its break the
-- output file holds at every offset the translated byte of the input, and nothing past its end.
pub rot13-output :
    (input : Bytes) (schedule : List (List Report)) (s : Shared)
    → rot13 input schedule ≡ finished s
    → (k : ℕ) → s.output k ≡ translated input k
unfolding rot13
rot13-output input schedule s e k =
    subst (Finishes (λ t. t.output k ≡ translated input k)) e
      (rot13_loop-Finishes input k schedule (replicate nbuf initial) start (start-FitsAll input k))
