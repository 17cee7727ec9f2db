-- ===== src/SEngine/Leaves/Verify.antt =====
-- s_engine/se_builtins/verify.py: the watchdogs. Timestamps and timeouts are nanoseconds; the
-- test `elapsed > timeout_ns` is written without the subtraction, which may be negative.
use robot_person.Base.{ℕ, ◌+◌, String, Bool, ltb, str_eq, List, if◌then◌else◌}
use robot_person.SEngine.Codes.{
  Code, event_init, event_terminate, se_pipeline_continue, se_pipeline_reset, se_pipeline_terminate,
}
use robot_person.SEngine.State.{
  UserData, start_time, event_count, EventData, Action, Env, pure, raise, get_cell, type_error,
  ◌>>=◌, ◌>>◌,
}
use robot_person.SEngine.Handle.{Handle}
use robot_person.SEngine.Lifecycle.{child_reset, child_invoke_oneshot, child_invoke_pred}
use robot_person.SEngine.Flow.Branch.{set_user_data}
use robot_person.SEngine.Leaves.Delays.{is_lifecycle, now_ns}

abbrev pub fail_code : Bool → Code
fail_code reset_flag = if reset_flag then se_pipeline_reset else se_pipeline_terminate

unfoldable pub fire_error : List Handle → ℕ → Action (Unit {0})
fire_error children idx = do child_reset children idx; child_invoke_oneshot children idx

unfoldable pub se_verify : Bool → List Handle → String → EventData → Action Code
se_verify reset_flag children event_id event_data =
    if is_lifecycle event_id then pure se_pipeline_continue else do
      holds ← child_invoke_pred children 0
      if holds
          then pure se_pipeline_continue
          else do fire_error children 1; pure (fail_code reset_flag)

-- `node["user_data"]["start_time"]`
abbrev pub start_of : UserData → Action ℕ
start_of (start_time t) = pure t
start_of _ = raise type_error

unfoldable pub se_verify_and_check_elapsed_time :
    Env → ℕ → Bool → ℕ → List Handle → String → EventData → Action Code
se_verify_and_check_elapsed_time env timeout reset_flag i children event_id event_data =
    if str_eq event_id event_init
    then (do
      now ← now_ns env event_data
      set_user_data i (start_time now)
      pure se_pipeline_continue)
    else if str_eq event_id event_terminate
    then pure se_pipeline_continue
    else do
      now ← now_ns env event_data
      c ← get_cell i
      start ← start_of c.user_data
      if ltb (start + timeout) now
          then (do fire_error children 0; pure (fail_code reset_flag))
          else pure se_pipeline_continue

-- `node["user_data"]["count"]`
abbrev pub count_of : UserData → Action ℕ
count_of (event_count n) = pure n
count_of _ = raise type_error

unfoldable pub se_verify_and_check_elapsed_events :
    String → ℕ → Bool → ℕ → List Handle → String → EventData → Action Code
se_verify_and_check_elapsed_events target max_count reset_flag i children event_id event_data =
    if str_eq event_id event_init
    then (do set_user_data i (event_count 0); pure se_pipeline_continue)
    else if str_eq event_id event_terminate
    then pure se_pipeline_continue
    else if str_eq event_id target
    then (do
      c ← get_cell i
      n ← count_of c.user_data
      set_user_data i (event_count (n + 1))
      if ltb max_count (n + 1)
          then (do fire_error children 0; pure (fail_code reset_flag))
          else pure se_pipeline_continue)
    else pure se_pipeline_continue
