-- ===== src/Rot13/Slices.antt =====
-- The bytes that one buffer of apue.3e/advio/rot13c2.c carries from the input to the output.
use play_apue.Prelude.{
  ℕ, ◌+◌, ◌-◌, ◌≤◌, ◌<◌, ◌≡◌, refl, ap, ◌∙◌, sym, ◌⊎◌, inl, inr, Option, none, some, [], ◌∷◌, map,
  arith, Bytes, length, take, drop, get_elem?, get_elem?-drop, get_elem?-take, get_elem?-none,
  get_elem?-some, length-take, split_le, zero, suc,
}
use play_apue.Rot13.{translate, bsz, write_at}

abbrev pub translate? : Option ℕ → Option ℕ
translate? none = none
translate? (some c) = some (translate c)

-- What the output must hold at `k`: nothing past the end of the input.
abbrev pub translated : Bytes → ℕ → Option ℕ
translated input k = translate? (get_elem? input k)

get_elem?-map : (xs : Bytes) (i : ℕ) → get_elem? (map translate xs) i ≡ translated xs i
get_elem?-map [] i = refl
get_elem?-map (x ∷ xs) zero = refl
get_elem?-map (x ∷ xs) (suc i) = get_elem?-map xs i

pub length-map : (xs : Bytes) → length (map translate xs) ≡ length xs
length-map [] = refl
length-map (x ∷ xs) = ap suc (length-map xs)

-- What is read at an offset, translated.
unfoldable pub block : Bytes → ℕ → Bytes
block input at = map translate (take bsz (drop at input))

pub block_inside :
    (input : Bytes) (at k : ℕ)
    → at ≤ k
    → k < at + bsz
    → get_elem? (block input at) (k - at) ≡ translated input k
unfolding block
block_inside input at k h t =
    let e : at + (k - at) ≡ k = omega arith in
    let g : get_elem? (take bsz (drop at input)) (k - at) ≡ get_elem? input k =
      get_elem?-take bsz (drop at input) (k - at) (omega arith)
      ∙ get_elem?-drop at input (k - at)
      ∙ ap (get_elem? input) e in
    get_elem?-map (take bsz (drop at input)) (k - at) ∙ ap translate? g

pub block_outside :
    (input : Bytes) (at k : ℕ) → at + bsz ≤ k → get_elem? (block input at) (k - at) ≡ none
unfolding block
block_outside input at k h =
    get_elem?-none (block input at) (k - at)
      (omega (arith, length-map (take bsz (drop at input)), length-take bsz (drop at input)))

module _ (at k : ℕ) (bytes : Bytes) (out : ℕ → Option ℕ) where
  write_at_in :
      (o : Option ℕ)
      → at ≤ k
      → get_elem? bytes (k - at) ≡ o
      → (write_at at bytes out k ≡ out k) ⊎ (write_at at bytes out k ≡ o)
  write_at_in none h e = inl (ground arith)
  write_at_in (some v) h e = inr (ground arith)

  write_at-some :
      (v : ℕ) → at ≤ k → get_elem? bytes (k - at) ≡ some v → write_at at bytes out k ≡ some v
  write_at-some v h e = ground arith

  write_at_past : at ≤ k → get_elem? bytes (k - at) ≡ none → write_at at bytes out k ≡ out k
  write_at_past h e = ground arith

  write_at_before : k < at → write_at at bytes out k ≡ out k
  write_at_before h = ground arith

module _ (input : Bytes) (at k : ℕ) (out : ℕ → Option ℕ) where
  -- A byte of the output is left or becomes what it must be.
  pub write_at-block :
      (write_at at (block input at) out k ≡ out k)
      ⊎ (write_at at (block input at) out k ≡ translated input k)
  write_at-block = elim (split_le at k) [
    | inr below ↦ inl (write_at_before at k (block input at) out below)
    | inl above ↦ elim (split_le (at + bsz) k) [
      | inl past ↦
          inl (write_at_past at k (block input at) out above (block_outside input at k past))
      | inr within ↦
          write_at_in at k (block input at) out (translated input k) above
            (block_inside input at k above within)
    ]
  ]

  -- Inside the block it becomes so.
  pub write_at-block_within :
      at ≤ k
      → k < at + bsz
      → k < length input
      → write_at at (block input at) out k ≡ translated input k
  write_at-block_within above within size =
      let (c, q) = get_elem?-some input k size in
      write_at-some at k (block input at) out (translate c) above
        (block_inside input at k above within ∙ ap translate? q)
      ∙ sym (ap translate? q)
