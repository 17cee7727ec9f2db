-- ===== src/SEngine/Samples/Leaves.antt =====
-- The leaves and codes at concrete inputs.
use robot_person.Base.{ℕ, pos, ◌≡◌, ◌⊎◌, refl, Bool, true, false, not, List, [], ◌∷◌, leb, arith}
use robot_person.SEngine.Codes.{
  event_init, is_application, is_function, is_pipeline, variant, to_pipeline, to_function,
  to_application, is_complete,
}
use robot_person.SEngine.Values.{Seconds}
use robot_person.SEngine.State.{State, ok}
use robot_person.SEngine.Handle.{Handle, p_call}
use robot_person.SEngine.Leaves.Pred
use robot_person.SEngine.Leaves.Pred.Logic.{Answer, all_true, any_true, odd_true, composite_logic}
use robot_person.SEngine.Leaves.Delays.{se_time_delay, se_wait_timeout}
use robot_person.SEngine.Leaves.TimeWindow.{span_contains}
use robot_person.SEngine.Leaves.TimeWindow.Spans.{steps_from, span_contains-steps_from}
use robot_person.SEngine.Codes.Families.{families, translate_variant, InFamily}
use robot_person.SEngine.Fn.{Fn, node, leaf, more}
use robot_person.SEngine.Tree.{handles}
use robot_person.SEngine.Samples.{sample_env, start, program, at_time}

abbrev five_seconds : Seconds
five_seconds = record { numerator = pos 5; exponent = 0 }

abbrev five_in_ns : ℕ
five_in_ns = 5000000000

abbrev after_init : State
after_init = (se_time_delay sample_env five_seconds 0 event_init (at_time 100) start).1

abbrev after_wait_init : State
after_wait_init = (se_wait_timeout sample_env "go" five_seconds 0 event_init (at_time 100) start).1

abbrev predicates : List Handle
predicates = handles sample_env 1 (
    more (node p_call Fn.true_pred leaf)
      (more (node p_call Fn.false_pred leaf) (more (node p_call Fn.true_pred leaf) leaf)))

abbrev answers : List Bool
answers = true ∷ false ∷ true ∷ []

predicates-Answer : Answer predicates answers
unfolding program
predicates-Answer = ((λ s. refl), ((λ s. refl), ((λ s. refl), tt)))

composite_logic_example :
    (Pred.pred_and predicates start ≡ (ok (all_true answers), start))
    × (Pred.pred_or predicates start ≡ (ok (any_true answers), start))
    × (Pred.pred_nand predicates start ≡ (ok (not (all_true answers)), start))
    × (Pred.pred_nor predicates start ≡ (ok (not (any_true answers)), start))
    × (Pred.pred_xor predicates start ≡ (ok (odd_true answers), start))
composite_logic_example = composite_logic predicates answers start predicates-Answer

-- half past one at night, in a window from 22 to 6 o'clock
span_contains-steps_from_example :
    span_contains 1 22 6 ≡ leb (steps_from 24 22 1) (steps_from 24 22 6)
span_contains-steps_from_example =
    span_contains-steps_from 24 1 22 6 (omega arith) (omega arith) (omega arith)

families_example :
    InFamily true false false (to_application 9) 9
    ⊎ InFamily false true false (to_function 9) 9
    ⊎ InFamily false false true (to_pipeline 9) 9
families_example = families 9 (omega arith)

translate_variant_example :
    (is_pipeline (to_pipeline 10) ≡ true)
    × (is_function (to_function 10) ≡ true)
    × (is_application (to_application 10) ≡ true)
    × (variant (to_pipeline 10) ≡ variant 10)
    × (variant (to_function 10) ≡ variant 10)
    × (variant (to_application 10) ≡ variant 10)
    × (is_complete (to_pipeline 10) ≡ is_complete 10)
    × (is_complete (to_function 10) ≡ is_complete 10)
    × (is_complete (to_application 10) ≡ is_complete 10)
translate_variant_example = translate_variant 10
