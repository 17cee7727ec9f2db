-- ===== src/SEngine/Routing.antt =====
-- s_engine/se_builtins/dispatch.py: routing of events and dictionary values to a child.
pub mod Follows
use robot_person.Base.{
  ℕ, String, ◌||◌, Option, none, some, List, [], ◌∷◌, ◌==◌, ◌&&◌, ltb, str_eq, lookup,
  if◌then◌else◌,
}
use robot_person.SEngine.Codes.{
  Code, event_init, event_terminate, se_function_halt, se_pipeline_continue, se_pipeline_halt,
}
use robot_person.SEngine.Values.{Value, null, value_lookup}
use robot_person.SEngine.State.{
  UserData, no_data, child_index, state_name, EventData, Action, pure, gets, get_cell, ◌>>=◌, ◌>>◌,
}
use robot_person.SEngine.Handle.{Handle}
use robot_person.SEngine.Lifecycle.{child_invoke, child_terminate}
use robot_person.SEngine.Flow.Sequence.{is_finished}
use robot_person.SEngine.Flow.Branch.{
  index_of, is_index, set_user_data, leave_branch, terminate_reset_recursive,
}

-- the code for the parent, by the code of the routed child
unfoldable pub normalize_routed : List Handle → ℕ → Code → Action Code
normalize_routed children idx r =
    if ltb r se_pipeline_continue
    then pure r
    else if r == se_pipeline_continue || r == se_pipeline_halt
    then pure r
    else if is_finished r
    then (do terminate_reset_recursive children idx; pure se_pipeline_continue)
    else pure se_pipeline_continue

-- `_invoke_and_handle`
unfoldable pub invoke_and_handle : List Handle → ℕ → String → EventData → Action Code
invoke_and_handle children idx event_id event_data = do
  r ← child_invoke children idx event_id event_data
  normalize_routed children idx r

-- TERMINATE of the two index routers: `if prev is not None: child_terminate(inst, node, prev)`
abbrev pub terminate_prev : List Handle → Option ℕ → Action (Unit {0})
terminate_prev children none = pure tt
terminate_prev children (some prev) = child_terminate children prev

-- the route to a child, `none` where the mapping has no entry
unfoldable pub route : ℕ → List Handle → Option ℕ → String → EventData → Action Code
route i children none event_id event_data = pure se_pipeline_continue
route i children (some idx) event_id event_data = do
  c ← get_cell i
  (if is_index (index_of c.user_data) idx
      then pure tt
      else leave_branch children (index_of c.user_data))
  set_user_data i (child_index idx)
  invoke_and_handle children idx event_id event_data

unfoldable pub terminate_router : ℕ → List Handle → Action Code
terminate_router i children = do
  c ← get_cell i
  terminate_prev children (index_of c.user_data)
  set_user_data i no_data
  pure se_pipeline_continue

unfoldable pub se_event_dispatch :
    List (String × ℕ) → ℕ → List Handle → String → EventData → Action Code
se_event_dispatch mapping i children event_id event_data =
    if str_eq event_id event_init
    then (do set_user_data i no_data; pure se_pipeline_continue)
    else if str_eq event_id event_terminate
    then terminate_router i children
    else route i children (lookup event_id mapping) event_id event_data

abbrev pub or_null : Option Value → Value
or_null none = null
or_null (some v) = v

unfoldable pub se_dict_dispatch :
    String → List (Value × ℕ) → ℕ → List Handle → String → EventData → Action Code
se_dict_dispatch key mapping i children event_id event_data =
    if str_eq event_id event_init
    then (do set_user_data i no_data; pure se_pipeline_continue)
    else if str_eq event_id event_terminate
    then terminate_router i children
    else do
      d ← gets (λ s. s.dictionary)
      route i children (value_lookup (or_null (lookup key d)) mapping) event_id event_data

-- `params` of a state machine; a transition is ((state, event_id), next_state)
pub record Machine : Type 0 where
  pub states : List (String × ℕ)
  pub transitions : List ((String × String) × String)
  pub initial : String

unfoldable pub next_state? : String → String → List ((String × String) × String) → Option String
next_state? current event_id [] = none
next_state? current event_id (((s, e), t) ∷ rest) =
    if str_eq s current && str_eq e event_id then some t else next_state? current event_id rest

-- `node["user_data"]` where it is a state's name or None
abbrev pub name_of : UserData → Option String
name_of (state_name n) = some n
name_of _ = none

-- the child of a state, if it is mapped
abbrev pub state_child : Machine → Option String → Option ℕ
state_child m none = none
state_child m (some n) = lookup n m.states

-- the state after the event; a transition to the current state itself is none
abbrev pub transition : Machine → Option String → String → Option String
transition m none event_id = none
transition m (some current) event_id = elim (next_state? current event_id m.transitions) [
  | none ↦ none
  | some t ↦ if str_eq t current then none else some t
]

-- leaves the current state's child for another state, and says which state is current then
unfoldable pub take_transition :
    Machine → ℕ → List Handle → Option String → Option String → Action (Option String)
take_transition m i children current none = pure current
take_transition m i children current (some t) = do
  leave_branch children (state_child m current)
  set_user_data i (state_name t)
  pure (some t)

-- a FUNCTION_HALT of the state's child becomes PIPELINE_HALT
unfoldable pub run_state : List Handle → Option ℕ → String → EventData → Action Code
run_state children none event_id event_data = pure se_pipeline_continue
run_state children (some idx) event_id event_data = do
  r ← child_invoke children idx event_id event_data
  if r == se_function_halt then pure se_pipeline_halt else normalize_routed children idx r

unfoldable pub se_state_machine : Machine → ℕ → List Handle → String → EventData → Action Code
se_state_machine m i children event_id event_data =
    if str_eq event_id event_init
    then (do set_user_data i (state_name m.initial); pure se_pipeline_continue)
    else if str_eq event_id event_terminate
    then (do
      c ← get_cell i
      terminate_prev children (state_child m (name_of c.user_data))
      set_user_data i no_data
      pure se_pipeline_continue)
    else do
      c ← get_cell i
      let current = name_of c.user_data
      now ← take_transition m i children current (transition m current event_id)
      run_state children (state_child m now) event_id event_data
