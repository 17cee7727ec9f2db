-- ===== src/ChainTree/Builtins/Machine.antt =====
-- chain_tree/ct_builtins/state_machine.py: a node whose children are the states.
pub mod Change
pub mod Start
use robot_person.Base.{
  ℕ, zero, suc, ◌==◌, String, Bool, true, false, Option, none, some, List, [], ◌∷◌, get_elem?,
  str_eq, if◌then◌else◌,
}
use robot_person.ChainTree.Codes.{
  CflCode, cfl_continue, cfl_disable, cfl_timer_event, cfl_event_type_null, cfl_change_state_event,
  cfl_reset_state_machine_event, cfl_terminate_state_machine_event,
}
use robot_person.ChainTree.Values.{
  Datum, text, node_ref, dict, Fields, nil, field, get_field, Event,
}
use robot_person.ChainTree.State.{
  Kb, key_error, index_error, value_error, Action, pure, raise, gets, get_data, modify_data, ◌>>=◌,
  ◌>>◌,
}
use robot_person.ChainTree.EventQueue.{make_event, enqueue, priority_high}
use robot_person.ChainTree.Node.{Program, MainFn, is_enabled}
use robot_person.ChainTree.Engine.{enable_node, terminate_node_tree}
use robot_person.ChainTree.Builtins.{ask, clear_all, fields_of}

-- `states.index(name)`, from a place on
abbrev pub index_from : ℕ → String → List String → Option ℕ
index_from n name [] = none
index_from n name (x ∷ xs) = elim (str_eq x name) [
  | true ↦ some n
  | false ↦ index_from (suc n) name xs
]

abbrev pub index_of : String → List String → Option ℕ
index_of name names = index_from 0 name names

-- `ed.get("sm_node") is node`
abbrev pub is_node : Option Datum → ℕ → Bool
is_node (some (node_ref j)) i = i == j
is_node _ i = false

unfoldable pub set_state : ℕ → ℕ → String → Action (Unit {0})
set_state i index name =
    modify_data i (λ d. record d { current_state_index = index; current_state_name = some name })

-- `enable_node(children[index])`
unfoldable pub enable_at : Option ℕ → Action (Unit {0})
enable_at none = raise index_error
enable_at (some child) = enable_node child

module _ (p : Program) where
  unfoldable pub terminate_at : Kb → Option ℕ → Action (Unit {0})
  terminate_at kb none = raise index_error
  terminate_at kb (some child) = terminate_node_tree p kb child

  unfoldable pub enter_state : Kb → ℕ → String → (cur : ℕ) → Option ℕ → Action (Unit {0})
  enter_state kb i name cur none = raise value_error
  enter_state kb i name cur (some index) = do
    if index == cur then pure tt else terminate_at kb (get_elem? (p.nodes i).children cur)
    enable_at (get_elem? (p.nodes i).children index)
    set_state i index name

  unfoldable pub do_change_state : Kb → ℕ → String → Action (Unit {0})
  do_change_state kb i name = do
    d ← get_data i
    enter_state kb i name d.current_state_index (index_of name d.state_names)

  -- `ed["new_state"]`: a missing key is an error, and so is what is not among the names
  unfoldable pub change_to : Kb → ℕ → Option Datum → Action (Unit {0})
  change_to kb i none = raise key_error
  change_to kb i (some (text name)) = do_change_state kb i name
  change_to kb i (some _) = raise value_error

  -- the events of a state machine: what is done if the event names this node
  unfoldable pub on_change : Kb → ℕ → Fields → Action (Unit {0})
  on_change kb i ed =
      if is_node (get_field "sm_node" ed) i
      then change_to kb i (get_field "new_state" ed)
      else pure tt

  unfoldable pub on_terminate : Kb → ℕ → Fields → Action (Unit {0})
  on_terminate kb i ed =
      if is_node (get_field "sm_node" ed) i then terminate_node_tree p kb i else pure tt

  unfoldable pub on_reset : Kb → ℕ → Fields → Action (Unit {0})
  on_reset kb i ed =
      if is_node (get_field "sm_node" ed) i
      then (do terminate_node_tree p kb i; enable_node i)
      else pure tt

  unfoldable pub poll_state : Option ℕ → Action CflCode
  poll_state none = raise index_error
  poll_state (some child) = do
    running ← gets (λ s. is_enabled s child)
    pure (if running then cfl_continue else cfl_disable)

  unfoldable pub machine_event : Kb → ℕ → Event → Action CflCode
  machine_event kb i event =
      if str_eq event.event_id cfl_change_state_event
      then (do ed ← fields_of event.payload; on_change kb i ed; pure cfl_continue)
      else if str_eq event.event_id cfl_terminate_state_machine_event
      then (do ed ← fields_of event.payload; on_terminate kb i ed; pure cfl_continue)
      else if str_eq event.event_id cfl_reset_state_machine_event
      then (do ed ← fields_of event.payload; on_reset kb i ed; pure cfl_continue)
      else if str_eq event.event_id cfl_timer_event
      then (do d ← get_data i; poll_state (get_elem? (p.nodes i).children d.current_state_index))
      else pure cfl_continue

  unfoldable pub cfl_state_machine_main : MainFn
  cfl_state_machine_main kb name i event = do
    early ← ask p false name kb i event
    if early then pure cfl_disable else machine_event kb i event

  unfoldable pub start_machine : ℕ → String → Option ℕ → Action (Unit {0})
  start_machine i initial none = raise value_error
  start_machine i initial (some index) = do
    clear_all (p.nodes i).children
    enable_at (get_elem? (p.nodes i).children index)
    set_state i index initial

  unfoldable pub cfl_state_machine_init : Kb → ℕ → Action (Unit {0})
  cfl_state_machine_init kb i = do
    d ← get_data i
    start_machine i d.initial_state (index_of d.initial_state d.state_names)

unfoldable pub cfl_state_machine_term : Kb → ℕ → Action (Unit {0})
cfl_state_machine_term kb i = pure tt

-- `extra` are the entries behind "sm_node"
unfoldable pub post_to_sm : ℕ → String → Fields → Action (Unit {0})
post_to_sm sm_node event_id extra = enqueue (
    make_event (node_ref sm_node) cfl_event_type_null event_id
      (dict (field "sm_node" (node_ref sm_node) extra)) priority_high)

unfoldable pub cfl_change_state : Kb → ℕ → Action (Unit {0})
cfl_change_state kb i = do
  d ← get_data i
  post_to_sm d.sm_node cfl_change_state_event (field "new_state" (text d.new_state) nil)

unfoldable pub cfl_terminate_state_machine : Kb → ℕ → Action (Unit {0})
cfl_terminate_state_machine kb i = do
  d ← get_data i
  post_to_sm d.sm_node cfl_terminate_state_machine_event nil

unfoldable pub cfl_reset_state_machine : Kb → ℕ → Action (Unit {0})
cfl_reset_state_machine kb i = do
  d ← get_data i
  post_to_sm d.sm_node cfl_reset_state_machine_event nil
