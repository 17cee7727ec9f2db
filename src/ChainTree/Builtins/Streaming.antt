-- ===== src/ChainTree/Builtins/Streaming.antt =====
-- chain_tree/ct_builtins/streaming.py: nodes that act on the streaming packets of their ports.
pub mod Collected
use robot_person.Base.{
  ℕ, String, Bool, true, false, Option, none, some, List, [], ◌∷◌, str_eq, if◌then◌else◌,
}
use robot_person.ChainTree.Codes.{CflCode, cfl_continue, cfl_halt, cfl_event_type_streaming_data}
use robot_person.ChainTree.Values.{
  Datum, null, text, node_ref, dict, Fields, nil, get_field, set_field, Event, Port,
}
use robot_person.ChainTree.State.{
  Kb, key_error, Action, pure, raise, get_data, modify_data, ◌>>=◌, ◌>>◌,
}
use robot_person.ChainTree.EventQueue.{make_event, enqueue, priority_normal}
use robot_person.ChainTree.Node.{Program, MainFn}
use robot_person.ChainTree.Builtins.{ask, escalate, fields_of, dict_of}

-- `event.get("event_id") == port.get("event_id")`
abbrev pub is_port_id : String → Option String → Bool
is_port_id event_id none = false
is_port_id event_id (some id) = str_eq event_id id

-- `data.get("_schema") == schema`
abbrev pub has_schema : Option Datum → String → Bool
has_schema (some (text found)) schema = str_eq found schema
has_schema _ schema = false

-- the schema of a port, if it has one, against the packet's
unfoldable pub schema_matches : Option String → Event → Action Bool
schema_matches none event = pure true
schema_matches (some schema) event = do
  packet ← fields_of event.payload
  pure (has_schema (get_field "_schema" packet) schema)

unfoldable pub event_matches : Event → Port → Action Bool
event_matches event port =
    if str_eq event.event_type cfl_event_type_streaming_data
    then if is_port_id event.event_id port.event_id
      then schema_matches port.schema event
      else pure false
    else pure false

-- the first port that takes the event
unfoldable pub find_port : Event → List Port → Action (Option Port)
find_port event [] = pure none
find_port event (port ∷ ports) =
    let others = find_port event ports in
    do found ← event_matches event port; if found then pure (some port) else others

abbrev pub is_there : Option Datum → Bool
is_there none = false
is_there (some d) = true

-- `all(ip["event_id"] in pending for ip in inports)`
unfoldable pub all_pending : List Port → Fields → Action Bool
all_pending [] pending = pure true
all_pending (port ∷ ports) pending =
    let others = all_pending ports pending in
    elim port.event_id [
      | none ↦ raise key_error
      | some id ↦ if is_there (get_field id pending) then others else pure false
    ]

-- the packets with the schema of the port that they go out on
abbrev pub with_schema : Option String → Fields → Fields
with_schema none packets = packets
with_schema (some schema) packets = set_field "_schema" (text schema) packets

-- `pending[matched_port["event_id"]] = dict(event["data"] or {})`
unfoldable pub store_packet : ℕ → Option String → Event → Action (Unit {0})
store_packet i none event = raise key_error
store_packet i (some id) event = do
  packet ← dict_of event.payload
  modify_data i (λ d. record d { pending = set_field id (dict packet) d.pending })

unfoldable pub emit_combined : Datum → Option String → Datum → Action (Unit {0})
emit_combined target none combined = raise key_error
emit_combined target (some id) combined =
    enqueue (make_event target cfl_event_type_streaming_data id combined priority_normal)

abbrev pub as_ref : Option ℕ → Datum
as_ref none = null
as_ref (some i) = node_ref i

-- `data.get("target_node") or node["parent"]`
abbrev pub or_parent : Option ℕ → Option ℕ → Datum
or_parent none parent = as_ref parent
or_parent (some target) parent = node_ref target

module _ (p : Program) where
  -- `_call_boolean` on a packet for the node's port
  unfoldable pub call_if_match : Bool → Option String → Kb → ℕ → Event → Action Bool
  call_if_match otherwise name kb i event = do
    d ← get_data i
    found ← event_matches event d.port
    if found then ask p true name kb i event else pure otherwise

  unfoldable pub cfl_streaming_sink_packet : MainFn
  cfl_streaming_sink_packet kb name i event = do
    _ ← call_if_match true name kb i event
    pure cfl_continue

  unfoldable pub cfl_streaming_tap_packet : MainFn
  cfl_streaming_tap_packet kb name i event = do
    _ ← call_if_match true name kb i event
    pure cfl_continue

  unfoldable pub cfl_streaming_filter_packet : MainFn
  cfl_streaming_filter_packet kb name i event = do
    passes ← call_if_match true name kb i event
    pure (if passes then cfl_continue else cfl_halt)

  unfoldable pub cfl_streaming_transform_packet : MainFn
  cfl_streaming_transform_packet kb name i event = do
    _ ← call_if_match true name kb i event
    pure cfl_continue

  unfoldable pub cfl_streaming_sink_collected : MainFn
  cfl_streaming_sink_collected = cfl_streaming_sink_packet

  unfoldable pub cfl_streaming_verify_packet : MainFn
  cfl_streaming_verify_packet kb name i event = do
    holds ← call_if_match true name kb i event
    if holds then pure cfl_continue else escalate p kb i

  -- emits the combined packet once each port has one
  unfoldable pub emit_if_complete : List Port → ℕ → Action (Unit {0})
  emit_if_complete inports i = do
    d ← get_data i
    complete ← all_pending inports d.pending
    if complete
        then (do
          emit_combined (or_parent d.target_node (p.nodes i).parent) d.outport.event_id
              (dict (with_schema d.outport.schema d.pending))
          modify_data i (λ e. record e { pending = nil }))
        else pure tt

  unfoldable pub collect : List Port → Option Port → Option String → Kb → ℕ → Event → Action CflCode
  collect inports none name kb i event = pure cfl_continue
  collect inports (some port) name kb i event = do
    store_packet i port.event_id event
    _ ← ask p true name kb i event
    emit_if_complete inports i
    pure cfl_continue

  unfoldable pub cfl_streaming_collect_packet : MainFn
  cfl_streaming_collect_packet kb name i event = do
    d ← get_data i
    matched ← find_port event d.inports
    collect d.inports matched name kb i event

unfoldable pub cfl_streaming_collect_init : Kb → ℕ → Action (Unit {0})
cfl_streaming_collect_init kb i = modify_data i (λ d. record d { pending = nil })
