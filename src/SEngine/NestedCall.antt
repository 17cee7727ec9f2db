-- ===== src/SEngine/NestedCall.antt =====
-- s_engine/se_builtins/nested_call.py: a tree that is run by a node of another. The child instance
-- has nodes, queues and an event context of its own, and shares the dictionary, the log and the
-- clocks of the module. The node's own fields but user_data are no part of this state.
pub mod Suspended
use robot_person.Base.{
  ℕ, zero, suc, String, Bool, true, false, not, ◌&&◌, ◌||◌, Option, none, some, List, [], ◌==◌,
  str_eq, if◌then◌else◌,
}
use robot_person.SEngine.Codes.{
  Code, event_init, event_terminate, se_pipeline_continue, is_application, is_function, to_pipeline,
}
use robot_person.SEngine.State.{
  State, Cell, Event, EventData, Result, ok, raised, value_error, key_error, Action, pure, gets,
  ◌>>=◌, ◌>>◌,
}
use robot_person.SEngine.Queue.{queue_empty}
use robot_person.SEngine.Handle.{Handle}
use robot_person.SEngine.Tick.{tick_once, pop}

-- a tree to call: its root, and the fields of its nodes as they stand
pub record Target : Type 0 where
  pub root : Handle
  pub cells : ℕ → Cell

-- the node's params; `none` is an absent key
pub record CallParams : Type 0 where
  pub tree : Option Target
  pub tree_name : Option String

-- the child instance
pub record Child : Type 0 where
  pub root : Handle
  pub cells : ℕ → Cell
  pub high_queue : List Event
  pub normal_queue : List Event
  pub current_event_id : Option String
  pub current_event_data : Option EventData

-- `module["trees"]`
abbrev pub Trees : Type 0
Trees = String → Option Target

abbrev pub named_tree : Option Target → Result Target
named_tree none = raised key_error
named_tree (some t) = ok t

abbrev pub by_name : Trees → Option String → Result Target
by_name trees none = raised value_error
by_name trees (some name) = named_tree (trees name)

abbrev pub tree_or_name : Trees → Option Target → Option String → Result Target
tree_or_name trees (some t) name = ok t
tree_or_name trees none name = by_name trees name

unfoldable pub resolve_tree : Trees → CallParams → Result Target
resolve_tree trees params = tree_or_name trees params.tree params.tree_name

-- the copy of the tree has the fields that the tree has now
unfoldable pub instance_of : Target → Child
instance_of t = record {
  root = t.root;
  cells = t.cells;
  high_queue = [];
  normal_queue = [];
  current_event_id = none;
  current_event_data = none;
}

abbrev pub child_of_target : Result Target → Result Child
child_of_target (raised e) = raised e
child_of_target (ok t) = ok (instance_of t)

unfoldable pub fresh_child : Trees → CallParams → Result Child
fresh_child trees params = child_of_target (resolve_tree trees params)

unfoldable pub result_is_complete : Code → Bool
result_is_complete code = not (code == se_pipeline_continue)

-- what follows the pop in a round of the drain
unfoldable pub drain_popped :
    Handle → Code → Option Event → (Code → Action (Option Code)) → Action (Option Code)
drain_popped root result none again = pure (some result)
drain_popped root result (some e) again = do r ← tick_once root e.event_id e.event_data; again r

-- the loop of the drain, one unit of fuel for a round; `none` is the model's own, for no fuel
unfoldable pub drain_child : ℕ → Handle → Code → Action (Option Code)
drain_child zero root result = pure none
drain_child (suc fuel) root result =
    let again = λ (r : Code). drain_child fuel root r in
    do
      empty ← gets queue_empty
      if empty || result_is_complete result
          then pure (some result)
          else do next ← pop; drain_popped root result next again

unfoldable pub tick_and_drain : ℕ → Handle → String → EventData → Action (Option Code)
tick_and_drain fuel root event_id event_data = do
  result ← tick_once root event_id event_data
  drain_child fuel root result

unfoldable pub translate : Code → Code
translate code =
    if is_application code then code else if is_function code then to_pipeline code else code

-- the state in which the child's nodes run
abbrev pub enter : Child → State → State
enter c s = record s {
  cells = c.cells;
  high_queue = c.high_queue;
  normal_queue = c.normal_queue;
  current_event_id = c.current_event_id;
  current_event_data = c.current_event_data;
}

-- the child after such a run, and what the parent sees of it
abbrev pub leave_child : Child → State → Child
leave_child c t = record c {
  cells = t.cells;
  high_queue = t.high_queue;
  normal_queue = t.normal_queue;
  current_event_id = t.current_event_id;
  current_event_data = t.current_event_data;
}

abbrev pub leave_parent : State → State → State
leave_parent s t = record s {
  dictionary = t.dictionary;
  log = t.log;
  time_reads = t.time_reads;
  wall_reads = t.wall_reads;
}

-- The node's user_data, None or a dict whose "child" is None or an instance, and the state.
pub record CallState : Type 0 where
  pub user_data : Option (Option Child)
  pub state : State

-- `(node.get("user_data") or {}).get("child")`
abbrev pub child_of : Option (Option Child) → Option Child
child_of none = none
child_of (some c) = c

-- the code for the parent; a child that is not at SE_PIPELINE_CONTINUE is dropped, unless its code
-- is an application's
abbrev pub drops : Code → Bool
drops translated = not (translated == se_pipeline_continue) && not (is_application translated)

abbrev pub keep_or_drop : Bool → Child → Option (Option Child)
keep_or_drop drop c = if drop then some none else some (some c)

-- after the run of a child, by its result
unfoldable pub after_run :
    Child → State → Result (Option Code) × State → Result (Option Code) × CallState
after_run c s (raised e, t) =
    (raised e, record { user_data = some (some (leave_child c t)); state = leave_parent s t })
after_run c s (ok none, t) =
    (ok none, record { user_data = some (some (leave_child c t)); state = leave_parent s t })
after_run c s (ok (some r), t) = (
  ok (some (translate r)),
  record {
    user_data = keep_or_drop (drops (translate r)) (leave_child c t);
    state = leave_parent s t;
  },
)

unfoldable pub run_child : ℕ → String → EventData → Child → State → Result (Option Code) × CallState
run_child fuel event_id event_data c s =
    after_run c s (tick_and_drain fuel c.root event_id event_data (enter c s))

-- the run of the child, or of a fresh one where there is none
unfoldable pub run_or_fresh :
    ℕ
    → String
    → EventData
    → Option Child
    → Result Child
    → CallState
    → Result (Option Code) × CallState
run_or_fresh fuel event_id event_data (some c) fresh st =
    run_child fuel event_id event_data c st.state
run_or_fresh fuel event_id event_data none (raised e) st = (raised e, st)
run_or_fresh fuel event_id event_data none (ok c) st = run_child fuel event_id event_data c st.state

abbrev pub start_child : Result Child → CallState → Result (Option Code) × CallState
start_child (raised e) st = (raised e, st)
start_child (ok c) st = (ok (some se_pipeline_continue), record st { user_data = some (some c) })

-- after TERMINATE was given to the child
abbrev pub after_terminate : Child → State → Result Code × State → Result (Option Code) × CallState
after_terminate c s (raised e, t) =
    (raised e, record { user_data = some (some (leave_child c t)); state = leave_parent s t })
after_terminate c s (ok r, t) =
    (ok (some se_pipeline_continue), record { user_data = none; state = leave_parent s t })

abbrev pub end_child : EventData → Option Child → CallState → Result (Option Code) × CallState
end_child event_data none st = (ok (some se_pipeline_continue), record st { user_data = none })
end_child event_data (some c) st =
    after_terminate c st.state (tick_once c.root event_terminate event_data (enter c st.state))

unfoldable pub se_call_tree :
    ℕ → Trees → CallParams → String → EventData → CallState → Result (Option Code) × CallState
se_call_tree fuel trees params event_id event_data st =
    if str_eq event_id event_init
    then start_child (fresh_child trees params) st
    else if str_eq event_id event_terminate
    then end_child event_data (child_of st.user_data) st
    else run_or_fresh fuel event_id event_data (child_of st.user_data) (fresh_child trees params) st
