-- ===== src/SEngine/Leaves/TimeWindow.antt =====
-- s_engine/se_builtins/time_window.py: windows of local time.
pub mod Spans
use robot_person.Base.{
  ℕ, String, Bool, true, false, ◌&&◌, ◌||◌, Option, none, some, leb, if◌then◌else◌,
}
use robot_person.SEngine.Codes.{Code, se_pipeline_continue, se_pipeline_halt, se_pipeline_disable}
use robot_person.SEngine.State.{
  EventData, Action, Env, LocalTime, pure, raise, read_local_time, value_error, ◌>>=◌, ◌>>◌,
}
use robot_person.SEngine.Leaves.Delays.{is_lifecycle}

-- the dict of one end of a window: a field is absent or a number
pub record Bound : Type 0 where
  pub hour : Option ℕ
  pub minute : Option ℕ
  pub sec : Option ℕ
  pub dow : Option ℕ
  pub dom : Option ℕ

unfoldable pub span_contains : ℕ → ℕ → ℕ → Bool
span_contains current start_v end_v =
    if leb start_v end_v
    then leb start_v current && leb current end_v
    else leb start_v current || leb current end_v

-- paired or absent: a ValueError if only one end is there
unfoldable pub mask_field_ok : ℕ → Option ℕ → Option ℕ → Action Bool
mask_field_ok current none none = pure true
mask_field_ok current (some start_v) (some end_v) = pure (span_contains current start_v end_v)
mask_field_ok current _ _ = raise value_error

-- `a and b`: the second is not evaluated if the first is false
unfoldable pub and_also : Action Bool → Action Bool → Action Bool
and_also m n = do b ← m; (if b then n else pure false)

unfoldable pub fields_ok : LocalTime → Bound → Bound → Action Bool
fields_ok t start end = and_also (mask_field_ok t.hour start.hour end.hour) (
    and_also (mask_field_ok t.minute start.minute end.minute) (
      and_also (mask_field_ok t.second start.sec end.sec) (
        and_also (mask_field_ok t.weekday start.dow end.dow)
          (mask_field_ok t.day start.dom end.dom))))

unfoldable pub in_window : Env → Bound → Bound → Action Bool
in_window env start end = do t ← read_local_time env; fields_ok t start end

unfoldable pub se_wait_until_in_time_window : Env → Bound → Bound → String → EventData → Action Code
se_wait_until_in_time_window env start end event_id event_data =
    if is_lifecycle event_id then pure se_pipeline_continue else do
      inside ← in_window env start end
      pure (if inside then se_pipeline_disable else se_pipeline_halt)

unfoldable pub se_wait_until_out_of_time_window :
    Env → Bound → Bound → String → EventData → Action Code
se_wait_until_out_of_time_window env start end event_id event_data =
    if is_lifecycle event_id then pure se_pipeline_continue else do
      inside ← in_window env start end
      pure (if inside then se_pipeline_halt else se_pipeline_disable)

unfoldable pub se_in_time_window : Env → Bound → Bound → Action Bool
se_in_time_window env start end = in_window env start end
