-- ===== src/ChainTree/Builtins/Controlled.antt =====
-- chain_tree/ct_builtins/controlled.py: a server node whose children work on a request, and its client.
pub mod Once
use robot_person.Base.{ℕ, String, Bool, true, false, Option, none, some, str_eq, if◌then◌else◌}
use robot_person.ChainTree.Codes.{
  CflCode, cfl_continue, cfl_disable, cfl_timer_event, cfl_event_type_streaming_data,
}
use robot_person.ChainTree.Values.{
  Datum, null, text, node_ref, dict, Fields, get_field, set_field, set_default, Event, Port,
}
use robot_person.ChainTree.State.{
  Kb, key_error, Action, pure, raise, gets, get_data, modify_data, ◌>>=◌, ◌>>◌,
}
use robot_person.ChainTree.EventQueue.{make_event, enqueue, priority_high}
use robot_person.ChainTree.Node.{Program, MainFn, any_enabled}
use robot_person.ChainTree.Builtins.{ask, enable_all, fields_of}
use robot_person.ChainTree.Builtins.Waits.{count_timeout}
use robot_person.ChainTree.Builtins.Streaming.{is_port_id, schema_matches}

unfoldable pub port_event_type : Port → String
port_event_type port = elim port.event_type [
  | none ↦ cfl_event_type_streaming_data
  | some event_type ↦ event_type
]

unfoldable pub event_matches_port : Event → Port → Action Bool
event_matches_port event port =
    if str_eq event.event_type (port_event_type port)
    then if is_port_id event.event_id port.event_id
      then schema_matches port.schema event
      else pure false
    else pure false

-- `client_node`: absent and None are the same
abbrev pub client_of : Option Datum → Option Datum
client_of (some null) = none
client_of client = client

-- the schema of a port, unless the payload has one
abbrev pub default_schema : Option String → Fields → Fields
default_schema none fields = fields
default_schema (some schema) fields = set_default "_schema" (text schema) fields

-- an event on a port that names one
unfoldable pub send : Datum → Port → Option String → Fields → Action (Unit {0})
send target port none fields = raise key_error
send target port (some id) fields =
    enqueue (make_event target (port_event_type port) id (dict fields) priority_high)

unfoldable pub send_response : ℕ → Datum → Action (Unit {0})
send_response i client = do
  d ← get_data i
  send client d.response_port d.response_port.event_id
      (default_schema d.response_port.schema d.response_data)

module _ (p : Program) where
  unfoldable pub accept_request : Option String → Kb → ℕ → Event → Action CflCode
  accept_request name kb i event = do
    ed ← fields_of event.payload
    modify_data i (λ d. record d { client_node = get_field "_client_node" ed; request_data = ed })
    _ ← ask p true name kb i event
    enable_all (p.nodes i).children
    pure cfl_continue

  unfoldable pub respond : ℕ → Option Datum → Action CflCode
  respond i none = pure cfl_continue
  respond i (some client) = do
    running ← gets (λ s. any_enabled s (p.nodes i).children)
    if running then pure cfl_continue else do
      send_response i client
      modify_data i (λ d. record d { client_node = none })
      pure cfl_disable

  unfoldable pub cfl_controlled_server_main : MainFn
  cfl_controlled_server_main kb name i event = do
    d ← get_data i
    matched ← event_matches_port event d.request_port
    if matched
        then accept_request name kb i event
        else if str_eq event.event_id cfl_timer_event
        then respond i (client_of d.client_node)
        else pure cfl_continue

  unfoldable pub cfl_controlled_client_main : MainFn
  cfl_controlled_client_main kb name i event = do
    d ← get_data i
    matched ← event_matches_port event d.response_port
    if matched
        then (do _ ← ask p true name kb i event; pure cfl_disable)
        else count_timeout p kb i event

unfoldable pub cfl_controlled_client_init : Kb → ℕ → Action (Unit {0})
cfl_controlled_client_init kb i = do
  d ← get_data i
  modify_data i (λ e. record e { timeout_count = 0 })
  send (node_ref d.server_node) d.request_port d.request_port.event_id
      (default_schema d.request_port.schema (set_field "_client_node" (node_ref i) d.request_data))

unfoldable pub cfl_controlled_client_term : Kb → ℕ → Action (Unit {0})
cfl_controlled_client_term kb i = pure tt
