-- ===== src/SEngine/Tick.antt =====
-- s_engine/se_runtime/tick.py: the entry points. The crash callback only displays an exception,
-- which is raised again, so it is no part of the model.
pub mod Drain
use robot_person.Base.{
  ℕ, zero, suc, String, Bool, true, false, ◌||◌, ◌==◌, Option, none, some, if◌then◌else◌,
}
use robot_person.SEngine.Codes
use robot_person.SEngine.Codes.{Code, se_pipeline_disable, se_pipeline_terminate}
use robot_person.SEngine.State.{State, Event, EventData, Action, pure, get_cell, ◌>>=◌, ◌>>◌, ok}
use robot_person.SEngine.Queue.{pop_event}
use robot_person.SEngine.Handle.{Handle}
use robot_person.SEngine.Dispatch.{invoke_any}

unfoldable pub tick_once : Handle → String → EventData → Action Code
tick_once root event_id event_data = do
  c ← get_cell root.id
  if c.active then invoke_any root event_id event_data else pure se_pipeline_terminate

-- how the loop of `run_until_idle` ends; `out_of_fuel` is the model's own
pub data Drained : Type 0 where
  idle : (last_result : Option Code) → Drained
  out_of_fuel : Drained

unfoldable pub pop : Action (Option Event)
pop s = let (e, t) = pop_event s in (ok e, t)

abbrev pub is_last : Code → Bool
is_last r = r == se_pipeline_disable || r == se_pipeline_terminate

-- one round: the event that was popped, and how the loop goes on
unfoldable pub drain_event :
    Handle → Option Code → Option Event → (Code → Action Drained) → Action Drained
drain_event root last none again = pure (idle last)
drain_event root last (some e) again = do
  r ← tick_once root e.event_id e.event_data
  if is_last r then pure (idle (some r)) else again r

-- The loop, with the last result so far. A node may queue an event on every tick, so the loop need
-- not end: each round takes one unit of fuel.
unfoldable pub drain : ℕ → Handle → Option Code → Action Drained
drain zero root last = pure out_of_fuel
drain (suc fuel) root last = do
  next ← pop
  drain_event root last next (λ r. drain fuel root (some r))

unfoldable pub run_until_idle : ℕ → Handle → Action Drained
run_until_idle fuel root = drain fuel root none

unfoldable pub is_complete : Option Code → Bool
is_complete none = false
is_complete (some code) = Codes.is_complete code
