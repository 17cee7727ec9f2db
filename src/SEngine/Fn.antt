-- ===== src/SEngine/Fn.antt =====
-- The builtin functions that a node's `fn` names (s_engine/se_builtins/), each with its params. A
-- function of a user, and `se_call_tree`, are not among them.
use robot_person.Base.{ℕ, String, Bool, List, ℤ}
use robot_person.SEngine.Codes.{Code}
use robot_person.SEngine.Values.{Value, Seconds}
use robot_person.SEngine.State.{EventData}
use robot_person.SEngine.Queue.{Priority}
use robot_person.SEngine.Handle.{CallType}
use robot_person.SEngine.Routing.{Machine}
use robot_person.SEngine.Leaves.TimeWindow.{Bound}

pub data Fn : Type 0 where
  sequence sequence_once function_interface fork fork_join chain_flow while_loop if_then_else : Fn
  cond : (has_else : Bool) → Fn
  trigger_on_change : (initial : ℕ) → Fn
  event_dispatch : (mapping : List (String × ℕ)) → Fn
  state_machine : Machine → Fn
  dict_dispatch : (key : String) → (mapping : List (Value × ℕ)) → Fn
  pred_and pred_or pred_not pred_nor pred_nand pred_xor true_pred false_pred : Fn
  check_event : (event_id : String) → Fn
  dict_eq dict_ne dict_gt dict_ge dict_lt dict_le : (key : String) → Value → Fn
  dict_in_range : (key : String) → (low high : Value) → Fn
  dict_inc_and_test : (key : String) → (threshold : ℤ) → Fn
  state_inc_and_test : (threshold : ℕ) → Fn
  time_delay : (seconds : Seconds) → Fn
  wait_event : (event_id : String) → Fn
  wait : (include_tick : Bool) → Fn
  wait_timeout : (event_id : String) → (seconds : Seconds) → Fn
  nop : Fn
  verify : (reset_flag : Bool) → Fn
  verify_elapsed_time : (timeout : ℕ) → (reset_flag : Bool) → Fn
  verify_elapsed_events : (target : String) → (max_count : ℕ) → (reset_flag : Bool) → Fn
  log : (message : String) → Fn
  dict_log : (message key : String) → Fn
  dict_set : (key : String) → Value → Fn
  dict_inc : (key : String) → (delta : ℤ) → Fn
  queue_event : (event_id : String) → Priority → EventData → Fn
  dict_load : (source : List (String × Value)) → Fn
  return_code : Code → Fn
  wait_until_in_time_window wait_until_out_of_time_window in_time_window : (start end : Bound) → Fn

-- A tree: every node a dict with its function, its call type and its children.
mutual
  pub data Node : Type 0 where
    node : CallType → Fn → Nodes → Node

  pub data Nodes : Type 0 where
    leaf : Nodes
    more : Node → Nodes → Nodes
