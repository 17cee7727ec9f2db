-- ===== src/ChainTree/Samples/Services.antt =====
-- Streaming nodes and controlled nodes at concrete inputs.
use robot_person.Base.{◌≡◌, refl, some, none, [], ◌∷◌, length}
use robot_person.ChainTree.Codes.{cfl_continue, cfl_disable, cfl_event_type_streaming_data}
use robot_person.ChainTree.Values.{number, node_ref, dict, field, nil, get_field, set_field, Event}
use robot_person.ChainTree.State.{World, ok, no_data, no_port, fresh_control}
use robot_person.ChainTree.EventQueue.{make_event, append_event, enqueue}
use robot_person.ChainTree.Builtins.{ask, dict_of}
use robot_person.ChainTree.Builtins.Streaming.{
  schema_matches, event_matches, find_port, all_pending, store_packet, emit_combined,
  emit_if_complete, collect, cfl_streaming_collect_packet,
}
use robot_person.ChainTree.Builtins.Streaming.Collected.{
  Collects, cfl_streaming_collect_packet-Collects,
}
use robot_person.ChainTree.Builtins.Controlled.{port_event_type, cfl_controlled_server_main}
use robot_person.ChainTree.Builtins.Controlled.Once.{
  answer, answered, cfl_controlled_server_main_once,
}
use robot_person.ChainTree.Samples.{sample, up, kb, tick, program}

-- a server with a request of node 3, and no child that runs
abbrev served : World
served = record up {
  control = λ _. fresh_control;
  node_data = λ _. record no_data {
    client_node = some (node_ref 3);
    request_port = record no_port { event_id = some "ask" };
    response_port = record no_port { event_id = some "reply"; schema = some "answer" };
  };
}

abbrev behind_answer : World
behind_answer = answered 0 (answer (node_ref 3) "reply" (served.node_data 0)) served

cfl_controlled_server_main_once_example :
    (cfl_controlled_server_main sample kb none 0 tick served ≡ (ok cfl_disable, behind_answer))
    × (cfl_controlled_server_main sample kb none 0 tick behind_answer
        ≡ (ok cfl_continue, behind_answer))
unfolding port_event_type make_event
cfl_controlled_server_main_once_example =
    cfl_controlled_server_main_once sample kb none 0 tick (node_ref 3) "reply" served refl refl refl
      refl refl

-- a collecting node with two ports, one of which has its packet already
abbrev collecting : World
collecting = record up {
  node_data = λ _. record no_data {
    inports =
        record no_port { event_id = some "left" } ∷ record no_port { event_id = some "right" } ∷ [];
    outport = record no_port { event_id = some "both"; schema = some "pair" };
    pending = field "left" (dict nil) nil;
  };
}

abbrev right_packet : Event
right_packet = record tick {
  event_id = "right";
  event_type = cfl_event_type_streaming_data;
  payload = dict (field "x" (number 4) nil);
}

abbrev collected : World
collected = (cfl_streaming_collect_packet sample kb none 1 right_packet collecting).1

streaming : Unit {0}
unfolding program cfl_streaming_collect_packet find_port event_matches schema_matches collect
    store_packet dict_of ask emit_if_complete all_pending get_field set_field emit_combined enqueue
    append_event
streaming = tt

cfl_streaming_collect_packet-collecting :
    cfl_streaming_collect_packet sample kb none 1 right_packet collecting
    ≡ (ok cfl_continue, collected)
unfolding streaming
cfl_streaming_collect_packet-collecting = refl

cfl_streaming_collect_packet-Collects_example :
    (cfl_continue ≡ cfl_continue)
    × Collects sample 1 (collecting.node_data 1).inports collecting collected
cfl_streaming_collect_packet-Collects_example =
    cfl_streaming_collect_packet-Collects sample kb 1 right_packet collecting collected cfl_continue
      cfl_streaming_collect_packet-collecting

-- the packet of the other port was the last that was missing
collected-normal : length collected.normal ≡ 1
unfolding streaming
collected-normal = refl
