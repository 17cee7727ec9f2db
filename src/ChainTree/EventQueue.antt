-- ===== src/ChainTree/EventQueue.antt =====
-- chain_tree/ct_runtime/event_queue.py: the two queues that the KBs of an engine share.
use robot_person.Base.{
  String, Bool, true, false, Option, none, some, List, [], ◌∷◌, ◌++◌, ◌||◌, str_eq, if◌then◌else◌,
}
use robot_person.ChainTree.Values.{Datum, Event}
use robot_person.ChainTree.State.{World, Action, modify}

abbrev pub priority_high : String
priority_high = "high"

abbrev pub priority_normal : String
priority_normal = "normal"

unfoldable pub make_event : Datum → String → String → Datum → String → Event
make_event target event_type event_id payload priority = record {
  target = target;
  event_type = event_type;
  event_id = event_id;
  payload = payload;
  priority = priority;
}

unfoldable pub append_event : Event → World → World
unfolding if◌then◌else◌
append_event e s =
    if str_eq e.priority priority_high
    then record s { high = s.high ++ e ∷ [] }
    else record s { normal = s.normal ++ record e { priority = priority_normal } ∷ [] }

unfoldable pub enqueue : Event → Action (Unit {0})
enqueue e = modify (append_event e)

abbrev pub pop_from : List Event → List Event → World → Option Event × World
pop_from (e ∷ es) normal s = (some e, record s { high = es })
pop_from [] (e ∷ es) s = (some e, record s { normal = es })
pop_from [] [] s = (none, s)

unfoldable pub pop : World → Option Event × World
pop s = pop_from s.high s.normal s

abbrev has_any : List Event → Bool
has_any [] = false
has_any (e ∷ es) = true

unfoldable pub nonempty : World → Bool
nonempty s = has_any s.high || has_any s.normal

unfoldable pub clear : World → World
clear s = record s { high = []; normal = [] }
