-- ===== src/ChainTree/Builtins/System.antt =====
-- chain_tree/ct_builtins/system.py: logging, the blackboard, and emitting packets.
use robot_person.Base.{ℕ, String, true, false, [], ◌∷◌, ◌++◌, str_eq}
use robot_person.ChainTree.Codes.{cfl_event_type_streaming_data}
use robot_person.ChainTree.Values.{Datum, Fields, set_field}
use robot_person.ChainTree.State.{Kb, Action, modify, get_data, ◌>>=◌}
use robot_person.ChainTree.EventQueue.{make_event, enqueue, priority_normal}
use robot_person.ChainTree.Builtins.Streaming.{as_ref}

unfoldable pub cfl_log_message : Kb → ℕ → Action (Unit {0})
cfl_log_message kb i = do d ← get_data i; modify (λ s. record s { log = s.log ++ d.message ∷ [] })

abbrev put_entry : String → String → Datum → (String → Fields) → String → Fields
put_entry kb key value boards name = elim (str_eq name kb) [
  | true ↦ set_field key value (boards name)
  | false ↦ boards name
]

unfoldable pub cfl_blackboard_set : Kb → ℕ → Action (Unit {0})
cfl_blackboard_set kb i = do
  d ← get_data i
  modify (λ s. record s { blackboard = put_entry kb.name d.key d.value s.blackboard })

unfoldable pub cfl_emit_streaming : Kb → ℕ → Action (Unit {0})
cfl_emit_streaming kb i = do
  d ← get_data i
  enqueue (
      make_event (as_ref d.target_node) cfl_event_type_streaming_data d.emit_event_id d.emit_data
        priority_normal)
