-- ===== src/SEngine/Samples/Builders.antt =====
-- Trees that the DSL builds, and its theorems at concrete inputs.
use robot_person.Base.{
  ℕ, pos, ◌+◌, ◌*◌, ◌≡◌, ◌≢◌, ◌≤◌, ◌<◌, refl, String, none, some, List, [], ◌∷◌, length, get_elem?,
  lookup,
}
use robot_person.SEngine.Values.{Seconds, times_power_of_two}
use robot_person.SEngine.State.{ok}
use robot_person.SEngine.Handle.{m_call}
use robot_person.SEngine.Fn.{Fn, Node, node, leaf, more}
use robot_person.SEngine.Dsl
use robot_person.SEngine.Dsl.Macros.{
  check_row, set_transition, transition_map, state_machine_from_table, retry_with_backoff,
}
use robot_person.SEngine.Dsl.Cases.{
  child_at, event_dispatch-route, HasActions, last_row, retry_with_backoff-children,
  state_machine_from_table-transitions,
}
use robot_person.SEngine.Routing.{next_state?}
use robot_person.SEngine.Samples.{program}

-- a door that opens and closes
abbrev door_states : List (String × Node)
door_states = ("open", Dsl.nop) ∷ ("closed", Dsl.nop) ∷ []

abbrev door_rows : List (String × (String × String))
door_rows = ("open", ("push", "closed")) ∷ ("closed", ("pull", "open")) ∷ []

abbrev door : Node
door =
    node m_call
      (Fn.state_machine (record {
        states = ("open", 0) ∷ ("closed", 1) ∷ [];
        transitions = (("open", "push"), "closed") ∷ (("closed", "pull"), "open") ∷ [];
        initial = "open";
      }))
      (more Dsl.nop (more Dsl.nop leaf))

state_machine_from_table-door : state_machine_from_table door_states door_rows "open" ≡ ok door
unfolding program state_machine_from_table check_row transition_map set_transition Dsl.state_machine
    Dsl.make_node Dsl.to_nodes Dsl.enumerate Dsl.values
state_machine_from_table-door = refl

state_machine_from_table-transitions_example :
    HasActions door_states door_rows
    × (lookup "open" door_states ≢ none)
    × ((map : List ((String × String) × String)) × (Dsl.state_machine door_states map "open"
          ≡ ok door)
        × ((current event_id : String)
            → next_state? current event_id map ≡ last_row door_rows current event_id none))
state_machine_from_table-transitions_example =
    state_machine_from_table-transitions door_states door_rows "open" door
      state_machine_from_table-door

abbrev half_second : Seconds
half_second = record { numerator = pos 1; exponent = 1 }

retry_with_backoff-children_example :
    (children : List Node) × (retry_with_backoff (λ i. Dsl.state_inc_and_test i) 3 half_second
      ≡ ok (Dsl.sequence children))
    × (length children ≡ 5)
    × ((j : ℕ) → j ≤ 2 → get_elem? children (2 * j) ≡ some (Dsl.state_inc_and_test j))
    × ((j : ℕ)
        → j < 2
        → get_elem? children (2 * j + 1) ≡ some (Dsl.time_delay (times_power_of_two half_second j)))
retry_with_backoff-children_example =
    retry_with_backoff-children (λ i. Dsl.state_inc_and_test i) 2 half_second refl

event_dispatch-route_example :
    (mapping : List (String × ℕ)) × (children : List Node) × (Dsl.event_dispatch door_states
      ≡ Dsl.make_node (Fn.event_dispatch mapping) m_call children)
    × (child_at (get_elem? children) (lookup "closed" mapping) ≡ lookup "closed" door_states)
event_dispatch-route_example = event_dispatch-route door_states "closed"
