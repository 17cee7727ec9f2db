-- ===== src/SEngine/Queue.antt =====
-- s_engine/se_runtime/instance.py: the two event queues of an instance. A priority is a type of
-- two values, so the ValueError for another text does not arise.
pub mod Order
use robot_person.Base.{
  ℕ, ◌+◌, Bool, true, false, ◌&&◌, String, Option, none, some, List, [], ◌∷◌, ◌++◌, length, leb,
  if◌then◌else◌,
}
use robot_person.SEngine.State.{
  State, Event, EventData, Action, Env, pure, raise, modify, overflow_error, gets, ◌>>=◌,
}

pub data Priority : Type 0 where
  high normal : Priority

unfoldable pub queue_size : State → ℕ
queue_size s = length s.high_queue + length s.normal_queue

abbrev pub append_event : Priority → Event → State → State
append_event high e s = record s { high_queue = s.high_queue ++ e ∷ [] }
append_event normal e s = record s { normal_queue = s.normal_queue ++ e ∷ [] }

abbrev pub at_limit : Option ℕ → ℕ → Bool
at_limit none n = false
at_limit (some limit) n = leb limit n

unfoldable pub push_event : Env → String → EventData → Priority → Action (Unit {0})
push_event env event_id event_data priority s =
    if at_limit env.event_queue_limit (queue_size s)
    then raise overflow_error s
    else modify (append_event priority (record { event_id = event_id; event_data = event_data })) s

abbrev pub is_empty : List Event → Bool
is_empty [] = true
is_empty (_ ∷ _) = false

unfoldable pub queue_empty : State → Bool
queue_empty s = is_empty s.high_queue && is_empty s.normal_queue

abbrev pub pop_from : List Event → List Event → State → Option Event × State
pop_from (e ∷ hs) ns s = (some e, record s { high_queue = hs })
pop_from [] (e ∷ ns) s = (some e, record s { normal_queue = ns })
pop_from [] [] s = (none, s)

-- high first, then normal; `none` if both are empty
unfoldable pub pop_event : State → Option Event × State
pop_event s = pop_from s.high_queue s.normal_queue s
