-- ===== src/ChainTree/Codes.antt =====
-- chain_tree/ct_runtime/codes.py: return codes of main functions, walker signals, reserved texts.
use robot_person.Base.{String, Bool, true, false, Option, none, some}

-- What a main function returned: one of the texts of `_VALID_CFL_CODES`, or another text.
pub data CflCode : Type 0 where
  cfl_continue cfl_halt cfl_terminate cfl_reset cfl_disable cfl_skip_continue : CflCode
  cfl_terminate_system : CflCode
  unknown_code : String → CflCode

unfoldable pub is_valid_cfl_code : CflCode → Bool
is_valid_cfl_code (unknown_code text) = false
is_valid_cfl_code _ = true

-- What a visit tells the walker.
pub data Signal : Type 0 where
  ct_continue ct_skip_children ct_stop_siblings ct_stop_all : Signal

-- The table `_CODE_TO_SIGNAL`. The function raises a ValueError for a code that is not in it.
unfoldable pub code_to_signal : CflCode → Option Signal
code_to_signal cfl_continue = some ct_continue
code_to_signal cfl_halt = some ct_stop_siblings
code_to_signal cfl_skip_continue = some ct_skip_children
code_to_signal cfl_disable = some ct_skip_children
code_to_signal cfl_reset = some ct_continue
code_to_signal cfl_terminate = none
code_to_signal cfl_terminate_system = none
code_to_signal (unknown_code text) = none

abbrev pub cfl_event_type_null : String
cfl_event_type_null = "CFL_EVENT_TYPE_NULL"

abbrev pub cfl_event_type_streaming_data : String
cfl_event_type_streaming_data = "CFL_EVENT_TYPE_STREAMING_DATA"

abbrev pub cfl_timer_event : String
cfl_timer_event = "CFL_TIMER_EVENT"

abbrev pub cfl_second_event : String
cfl_second_event = "CFL_SECOND_EVENT"

abbrev pub cfl_minute_event : String
cfl_minute_event = "CFL_MINUTE_EVENT"

abbrev pub cfl_hour_event : String
cfl_hour_event = "CFL_HOUR_EVENT"

abbrev pub cfl_terminate_event : String
cfl_terminate_event = "CFL_TERMINATE_EVENT"

abbrev pub cfl_terminate_system_event : String
cfl_terminate_system_event = "CFL_TERMINATE_SYSTEM_EVENT"

abbrev pub cfl_raise_exception_event : String
cfl_raise_exception_event = "CFL_RAISE_EXCEPTION_EVENT"

abbrev pub cfl_change_state_event : String
cfl_change_state_event = "CFL_CHANGE_STATE_EVENT"

abbrev pub cfl_reset_state_machine_event : String
cfl_reset_state_machine_event = "CFL_RESET_STATE_MACHINE_EVENT"

abbrev pub cfl_terminate_state_machine_event : String
cfl_terminate_state_machine_event = "CFL_TERMINATE_STATE_MACHINE_EVENT"

abbrev pub cfl_turn_heartbeat_on_event : String
cfl_turn_heartbeat_on_event = "CFL_TURN_HEARTBEAT_ON_EVENT"

abbrev pub cfl_turn_heartbeat_off_event : String
cfl_turn_heartbeat_off_event = "CFL_TURN_HEARTBEAT_OFF_EVENT"

abbrev pub cfl_heartbeat_event : String
cfl_heartbeat_event = "CFL_HEARTBEAT_EVENT"

abbrev pub cfl_set_exception_step_event : String
cfl_set_exception_step_event = "CFL_SET_EXCEPTION_STEP_EVENT"

-- the name of the functions that do nothing, and of "no function"
abbrev pub cfl_null : String
cfl_null = "CFL_NULL"
