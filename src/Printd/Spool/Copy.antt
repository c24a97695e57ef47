-- ===== src/Printd/Spool/Copy.antt =====
-- The data file that a client of apue.3e/printer/printd.c leaves: all that it sent before a silence, an
-- error or the end.
use mathlib.Core.Path.{subst}
use play_apue.Prelude.{
  ◌&&◌, ℕ, zero, suc, ◌≤◌, ◌≡◌, refl, ap, sym, ◌∙◌, Bool, true, false, not, List, [], ◌∷◌, ◌++◌,
  append_assoc, append-nil, arith, if◌then◌else◌, Bytes, take,
}
use play_apue.Printd.{Printreq}
use play_apue.Printd.TimedRead.{
  Arrival, silence, broken, bytes, Reading, failed, got, tread, available,
}
use play_apue.Printd.TimedRead.Rest.{arriving, left_over, left_over_lem}
use play_apue.Printd.Spool.{
  Wrote, full, short, error, Copied, copied, spoiled, on_wrote, next_write, later_writes, iobufsz,
  is_postscript, set_text, copy_round, copy_loop, copy_data,
}

available_nothing : (from : List Arrival) → arriving from ≡ 0 → available from ≡ []
available_nothing [] e = refl
available_nothing (silence ∷ from) e = refl
available_nothing (broken ∷ from) e = refl
available_nothing (bytes [] ∷ from) e = refl
available_nothing (bytes (c ∷ d) ∷ from) e = absurd (omega arith)

copy_loop_lem :
    (fuel : ℕ) (file : Bytes) (req : Printreq) (from : List Arrival)
    → arriving from ≤ fuel
    → copy_loop fuel false file req [] from ≡ copied (file ++ available from) req
unfolding copy_loop copy_round tread
copy_loop_lem zero file req from h =
    ap (λ t. copied t req)
      (sym (ap (λ t. file ++ t) (available_nothing from (omega arith)) ∙ append-nil file))
copy_loop_lem (suc fuel) file req [] h = ap (λ t. copied t req) (sym (append-nil file))
copy_loop_lem (suc fuel) file req (silence ∷ from) h =
    ap (λ t. copied t req) (sym (append-nil file))
copy_loop_lem (suc fuel) file req (broken ∷ from) h = ap (λ t. copied t req) (sym (append-nil file))
copy_loop_lem (suc fuel) file req (bytes [] ∷ from) h =
    ap (λ t. copied t req) (sym (append-nil file))
copy_loop_lem (suc fuel) file req (bytes (c ∷ d) ∷ from) h =
    let (e, less) = left_over_lem 8191 c d from in
    copy_loop_lem fuel (file ++ c ∷ take 8191 d) req (left_over 8192 (c ∷ d) from) (omega arith)
    ∙ ap (λ t. copied t req)
        (append_assoc file (c ∷ take 8191 d) (available (left_over 8192 (c ∷ d) from))
          ∙ ap (λ t. file ++ t) e)

-- A file that is copied is this one.
abbrev pub Whole : Bytes → Copied → Type 0
Whole b (copied file req) = file ≡ b
Whole b (spoiled e) = Unit

on_wrote-Whole : (w : Wrote) (b : Bytes) (c : Copied) → Whole b c → Whole b (on_wrote w c)
on_wrote-Whole full b c h = h
on_wrote-Whole short b c h = tt
on_wrote-Whole (error e) b c h = tt

copy_loop-Whole :
    (fuel : ℕ) (first : Bool) (file : Bytes) (req : Printreq) (ws : List Wrote)
    (from : List Arrival)
    → arriving from ≤ fuel
    → Whole (file ++ available from) (copy_loop fuel first file req ws from)
unfolding copy_loop copy_round tread
copy_loop-Whole zero first file req ws from h =
    sym (ap (λ t. file ++ t) (available_nothing from (omega arith)) ∙ append-nil file)
copy_loop-Whole (suc fuel) first file req ws [] h = sym (append-nil file)
copy_loop-Whole (suc fuel) first file req ws (silence ∷ from) h = sym (append-nil file)
copy_loop-Whole (suc fuel) first file req ws (broken ∷ from) h = sym (append-nil file)
copy_loop-Whole (suc fuel) first file req ws (bytes [] ∷ from) h = sym (append-nil file)
copy_loop-Whole (suc fuel) first file req ws (bytes (c ∷ d) ∷ from) h =
    let (e, less) = left_over_lem 8191 c d from in
    let piece : Bytes = c ∷ take 8191 d in
    let lo : List Arrival = left_over 8192 (c ∷ d) from in
    let again : Copied =
      copy_loop fuel false (file ++ piece)
        (if first && not (is_postscript piece) then set_text req else req) (later_writes ws) lo in
    on_wrote-Whole (next_write ws) (file ++ available (bytes (c ∷ d) ∷ from)) again (
      subst (λ b. Whole b again) (append_assoc file piece (available lo) ∙ ap (λ t. file ++ t) e)
        (copy_loop-Whole fuel false (file ++ piece)
          (if first && not (is_postscript piece) then set_text req else req) (later_writes ws) lo
          (omega arith)))

-- Whatever the writes do, the file is all that is to come, or it is given up.
pub copy_data-Whole :
    (req : Printreq) (ws : List Wrote) (from : List Arrival)
    → Whole (available from) (copy_data req ws from)
unfolding copy_data
copy_data-Whole req ws from = copy_loop-Whole (arriving from) true [] req ws from (omega arith)

-- The first piece decides whether the file is plain text.
unfoldable pub marked : Reading → Printreq → Printreq
marked (failed e) req = req
marked (got []) req = req
marked (got (c ∷ d)) req = if is_postscript (c ∷ d) then req else set_text req

mark_not :
    (b : Bool) (req : Printreq)
    → (if not b then set_text req else req) ≡ (if b then req else set_text req)
mark_not true req = refl
mark_not false req = refl

copy_loop_first :
    (fuel : ℕ) (req : Printreq) (from : List Arrival)
    → arriving from ≤ fuel
    → copy_loop fuel true [] req [] from
      ≡ copied (available from) (marked (tread iobufsz from).0 req)
unfolding copy_loop copy_round tread marked
copy_loop_first zero req [] h = refl
copy_loop_first zero req (silence ∷ from) h = refl
copy_loop_first zero req (broken ∷ from) h = refl
copy_loop_first zero req (bytes [] ∷ from) h = refl
copy_loop_first zero req (bytes (c ∷ d) ∷ from) h = absurd (omega arith)
copy_loop_first (suc fuel) req [] h = refl
copy_loop_first (suc fuel) req (silence ∷ from) h = refl
copy_loop_first (suc fuel) req (broken ∷ from) h = refl
copy_loop_first (suc fuel) req (bytes [] ∷ from) h = refl
copy_loop_first (suc fuel) req (bytes (c ∷ d) ∷ from) h =
    let (e, less) = left_over_lem 8191 c d from in
    let piece : Bytes = c ∷ take 8191 d in
    copy_loop_lem fuel piece (if not (is_postscript piece) then set_text req else req)
      (left_over 8192 (c ∷ d) from) (omega arith)
    ∙ ap (λ t. copied t (if not (is_postscript piece) then set_text req else req)) e
    ∙ ap (copied (available (bytes (c ∷ d) ∷ from))) (mark_not (is_postscript piece) req)

pub copy_data_lem :
    (req : Printreq) (from : List Arrival)
    → copy_data req [] from ≡ copied (available from) (marked (tread iobufsz from).0 req)
unfolding copy_data
copy_data_lem req from = copy_loop_first (arriving from) req from (omega arith)
