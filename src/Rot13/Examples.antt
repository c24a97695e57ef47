-- ===== src/Rot13/Examples.antt =====
-- Runs of the rot13 programs, and their theorems at those runs.
use play_apue.Prelude.{
  ℕ, ◌+◌, ◌*◌, ◌≡◌, refl, none, some, List, [], ◌∷◌, ◌++◌, arith, Bytes, codes, length, replicate,
}
use play_apue.Rot13.{
  nbuf, Report, complete, Shared, finished, translate, rot13_loop, pass, visit, visit_op,
  start_read, read_done, write_done, on_report, rot13, initial, start,
}
use play_apue.Rot13.Slices.{translated}
use play_apue.Rot13.Loop.{rot13-output}
use play_apue.Rot13.Progress.{all_complete, rot13_ends}
use play_apue.Rot13.Translate.{rotated, translate-eq-rotated}
use play_apue.Rot13.Chapter14.{exiting_loop, exiting_loop_lost}

abbrev hello : Bytes
hello = codes "Hi"

-- The read is found complete in the second pass, and the write in the fourth.
abbrev slowly : List (List Report)
slowly = [] ∷ (complete ∷ []) ∷ [] ∷ (complete ∷ []) ∷ []

-- Where that run ends.
end_state : Shared
end_state = elim (rot13 hello slowly) [ finished s ↦ s | _ ↦ start ]

end_state_output : end_state.output 0 ≡ some b'U'
unfolding end_state rot13 rot13_loop pass visit visit_op start_read read_done write_done on_report
    translate
end_state_output = refl

rot13-output_example : end_state.output 1 ≡ translated hello 1
unfolding end_state rot13 rot13_loop pass visit visit_op start_read read_done write_done on_report
rot13-output_example = rot13-output hello slowly end_state refl 1

rot13_ends_example :
    (t : Shared) × (rot13 hello (slowly ++ replicate (3 * length hello + 1) all_complete)
      ≡ finished t)
    × ((k : ℕ) → t.output k ≡ translated hello k)
rot13_ends_example = rot13_ends hello slowly (tt, ((cc, tt), (tt, ((cc, tt), tt))))

exiting_loop_lost_example :
    (t : Shared) × (exiting_loop hello ([] ∷ slowly) (replicate nbuf initial) start ≡ finished t)
    × ((k : ℕ) → t.output k ≡ none)
exiting_loop_lost_example = exiting_loop_lost hello [] slowly (omega arith)

translate-eq-rotated_example : translate b'Q' ≡ rotated b'Q'
translate-eq-rotated_example = translate-eq-rotated b'Q'
