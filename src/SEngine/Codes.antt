-- ===== src/SEngine/Codes.antt =====
-- s_engine/se_runtime/codes.py: return codes and reserved event ids. A code is a number.
pub mod Families
use robot_person.Base.{
  ℕ, ◌+◌, ◌%◌, String, Bool, true, false, ◌&&◌, ◌||◌, leb, ltb, ◌==◌, str_eq, if◌then◌else◌,
}

abbrev pub Code : Type 0
Code = ℕ

abbrev pub se_continue : Code
se_continue = 0

abbrev pub se_halt : Code
se_halt = 1

abbrev pub se_terminate : Code
se_terminate = 2

abbrev pub se_reset : Code
se_reset = 3

abbrev pub se_disable : Code
se_disable = 4

abbrev pub se_skip_continue : Code
se_skip_continue = 5

abbrev pub se_function_continue : Code
se_function_continue = 6

abbrev pub se_function_halt : Code
se_function_halt = 7

abbrev pub se_function_terminate : Code
se_function_terminate = 8

abbrev pub se_function_reset : Code
se_function_reset = 9

abbrev pub se_function_disable : Code
se_function_disable = 10

abbrev pub se_function_skip_continue : Code
se_function_skip_continue = 11

abbrev pub se_pipeline_continue : Code
se_pipeline_continue = 12

abbrev pub se_pipeline_halt : Code
se_pipeline_halt = 13

abbrev pub se_pipeline_terminate : Code
se_pipeline_terminate = 14

abbrev pub se_pipeline_reset : Code
se_pipeline_reset = 15

abbrev pub se_pipeline_disable : Code
se_pipeline_disable = 16

abbrev pub se_pipeline_skip_continue : Code
se_pipeline_skip_continue = 17

-- `code in range(0, 6)`
unfoldable pub is_application : Code → Bool
is_application code = ltb code 6

-- `code in range(6, 12)`
unfoldable pub is_function : Code → Bool
is_function code = leb 6 code && ltb code 12

-- `code in range(12, 18)`
unfoldable pub is_pipeline : Code → Bool
is_pipeline code = leb 12 code && ltb code 18

unfoldable pub variant : Code → ℕ
variant code = code % 6

unfoldable pub to_pipeline : Code → Code
unfolding variant
to_pipeline code = se_pipeline_continue + variant code

unfoldable pub to_function : Code → Code
unfolding variant
to_function code = se_function_continue + variant code

unfoldable pub to_application : Code → Code
unfolding variant
to_application code = se_continue + variant code

unfoldable pub is_complete : Code → Bool
unfolding variant
is_complete code = let v = variant code in v == 2 || v == 4

abbrev pub event_init : String
event_init = "init"

abbrev pub event_tick : String
event_tick = "tick"

abbrev pub event_terminate : String
event_terminate = "terminate"

unfoldable pub is_reserved_event : String → Bool
is_reserved_event event_id =
    str_eq event_id event_init || str_eq event_id event_tick || str_eq event_id event_terminate
