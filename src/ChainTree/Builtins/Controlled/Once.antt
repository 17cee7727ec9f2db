-- ===== src/ChainTree/Builtins/Controlled/Once.antt =====
-- A controlled server answers the client of a request once.
use robot_person.Base.{
  ℕ, ◌≡◌, refl, ap, ◌∙◌, String, false, Option, none, some, [], ◌∷◌, ◌++◌, str_eq, eq_iff,
  if◌then◌else◌,
}
use mathlib.Core.Path.{subst⁻¹}
use robot_person.ChainTree.Codes.{cfl_continue, cfl_disable, cfl_timer_event}
use robot_person.ChainTree.Values.{Datum, dict, Event}
use robot_person.ChainTree.State.{
  World, Kb, NodeData, ok, update, update_self, pure, gets, modify, get_data, modify_data, ◌>>=◌,
  ◌>>◌,
}
use robot_person.ChainTree.EventQueue.{make_event, append_event, enqueue, priority_high}
use robot_person.ChainTree.Node.{Program, any_enabled}
use robot_person.ChainTree.Builtins.Controlled.{
  port_event_type, event_matches_port, client_of, default_schema, send, send_response, respond,
  cfl_controlled_server_main,
}

-- the answer of a server with these data, on the port's event id
abbrev pub answer : Datum → String → NodeData → Event
answer client id d = record {
  target = client;
  event_type = port_event_type d.response_port;
  event_id = id;
  payload = dict (default_schema d.response_port.schema d.response_data);
  priority = priority_high;
}

-- the state behind the answer
abbrev pub answered : ℕ → Event → World → World
answered i reply s = record s {
  high = s.high ++ reply ∷ [];
  node_data = update s.node_data i (record (s.node_data i) { client_node = none });
}

module _ (p : Program) (kb : Kb) (name : Option String) (i : ℕ) (event : Event) where
  -- a timer event on which the server only polls
  poll-respond :
      (s : World)
      → str_eq event.event_type (port_event_type (s.node_data i).request_port) ≡ false
      → event.event_id ≡ cfl_timer_event
      → cfl_controlled_server_main p kb name i event s
        ≡ respond p i (client_of (s.node_data i).client_node) s
  unfolding cfl_controlled_server_main event_matches_port get_data pure ◌>>=◌ if◌then◌else◌
  poll-respond s other timer = rw other (rw ((eq_iff event.event_id cfl_timer_event).1 timer) refl)

respond-none : (p : Program) (i : ℕ) (s : World) → respond p i none s ≡ (ok cfl_continue, s)
unfolding respond pure
respond-none p i s = refl

respond-answered :
    (p : Program) (i : ℕ) (client : Datum) (id : String) (s : World)
    → any_enabled s (p.nodes i).children ≡ false
    → (s.node_data i).response_port.event_id ≡ some id
    → respond p i (some client) s
      ≡ (ok cfl_disable, answered i (answer client id (s.node_data i)) s)
unfolding respond gets send_response get_data send make_event enqueue append_event modify
    modify_data pure ◌>>=◌ if◌then◌else◌
respond-answered p i client id s idle port =
    let d = s.node_data i in
    rw idle (
      subst⁻¹
        (λ o.
          (do
            send client d.response_port o (default_schema d.response_port.schema d.response_data)
            modify_data i (λ e. record e { client_node = none })
            pure cfl_disable)
            s
          ≡ (ok cfl_disable, answered i (answer client id d) s))
        port refl)

-- A controlled server that accepted a request of a client, on a timer event that its request port
-- does not take, while none of its children is enabled: it queues exactly one answer, to that client
-- and behind the high priority events, returns CFL_DISABLE, and forgets the client. Asked again on
-- the same event, it does nothing and returns CFL_CONTINUE.
pub cfl_controlled_server_main_once :
    (p : Program) (kb : Kb) (name : Option String) (i : ℕ) (event : Event) (client : Datum)
    (id : String) (s : World)
    → str_eq event.event_type (port_event_type (s.node_data i).request_port) ≡ false
    → event.event_id ≡ cfl_timer_event
    → client_of (s.node_data i).client_node ≡ some client
    → any_enabled s (p.nodes i).children ≡ false
    → (s.node_data i).response_port.event_id ≡ some id
    → let after = answered i (answer client id (s.node_data i)) s in
      (cfl_controlled_server_main p kb name i event s ≡ (ok cfl_disable, after))
      × (cfl_controlled_server_main p kb name i event after ≡ (ok cfl_continue, after))
cfl_controlled_server_main_once p kb name i event client id s other timer asked idle port =
    let d = s.node_data i in
    let after = answered i (answer client id d) s in
    let forgotten = update_self s.node_data i (record d { client_node = none }) in
    (
      poll-respond p kb name i event s other timer
          ∙ ap (λ c. respond p i c s) asked
          ∙ respond-answered p i client id s idle port,
      poll-respond p kb name i event after
            (subst⁻¹ (λ e. str_eq event.event_type (port_event_type e.request_port) ≡ false)
              forgotten other)
            timer
          ∙ ap (λ e. respond p i (client_of e.client_node) after) forgotten
          ∙ respond-none p i after,
    )
