-- ===== src/SEngine/Tree.antt =====
-- Trees of builtin nodes as handles. The identity of a node is its place in the walk of the tree
-- from `base` on, the node itself first and then its children in their order, so no dict is shared
-- between two places of a tree.
use robot_person.Base.{ℕ, suc, ◌+◌, String, Bool, true, false, List, [], ◌∷◌}
use robot_person.SEngine.Codes.{Code}
use robot_person.SEngine.State.{EventData, Action, Env, pure, raise, type_error, ◌>>◌}
use robot_person.SEngine.Handle.{Handle}
use robot_person.SEngine.Lifecycle.{reset_node_state}
use robot_person.SEngine.Flow.Sequence.{se_sequence, se_sequence_once}
use robot_person.SEngine.Flow.Fork.{se_function_interface, se_fork, se_fork_join}
use robot_person.SEngine.Flow.Chain.{se_chain_flow, se_while}
use robot_person.SEngine.Flow.Branch.{se_if_then_else, se_cond}
use robot_person.SEngine.Flow.Trigger.{se_trigger_on_change}
use robot_person.SEngine.Routing.{se_event_dispatch, se_dict_dispatch, se_state_machine}
use robot_person.SEngine.Leaves.Pred
use robot_person.SEngine.Leaves.Oneshot
use robot_person.SEngine.Leaves.Delays.{
  se_time_delay, se_wait_event, se_wait, se_wait_timeout, se_nop, return_code,
}
use robot_person.SEngine.Leaves.TimeWindow.{
  se_wait_until_in_time_window, se_wait_until_out_of_time_window, se_in_time_window,
}
use robot_person.SEngine.Leaves.Verify.{
  se_verify, se_verify_and_check_elapsed_time, se_verify_and_check_elapsed_events,
}
use robot_person.SEngine.Fn.{Fn, Node, Nodes, node, leaf, more}

-- `fn(inst, node, event_id, event_data)`; a function of two arguments raises a TypeError
unfoldable pub call_main : Env → Fn → ℕ → List Handle → String → EventData → Action Code
call_main env Fn.sequence i hs e d = se_sequence i hs e d
call_main env Fn.sequence_once i hs e d = se_sequence_once i hs e d
call_main env Fn.function_interface i hs e d = se_function_interface i hs e d
call_main env Fn.fork i hs e d = se_fork i hs e d
call_main env Fn.fork_join i hs e d = se_fork_join hs e d
call_main env Fn.chain_flow i hs e d = se_chain_flow hs e d
call_main env Fn.while_loop i hs e d = se_while i hs e d
call_main env Fn.if_then_else i hs e d = se_if_then_else hs e d
call_main env (Fn.cond b) i hs e d = se_cond b i hs e d
call_main env (Fn.trigger_on_change n) i hs e d = se_trigger_on_change n i hs e d
call_main env (Fn.event_dispatch m) i hs e d = se_event_dispatch m i hs e d
call_main env (Fn.state_machine m) i hs e d = se_state_machine m i hs e d
call_main env (Fn.dict_dispatch k m) i hs e d = se_dict_dispatch k m i hs e d
call_main env (Fn.time_delay n) i hs e d = se_time_delay env n i e d
call_main env (Fn.wait_event t) i hs e d = se_wait_event t e d
call_main env (Fn.wait b) i hs e d = se_wait b e d
call_main env (Fn.wait_timeout t n) i hs e d = se_wait_timeout env t n i e d
call_main env Fn.nop i hs e d = se_nop e d
call_main env (Fn.verify b) i hs e d = se_verify b hs e d
call_main env (Fn.verify_elapsed_time n b) i hs e d =
    se_verify_and_check_elapsed_time env n b i hs e d
call_main env (Fn.verify_elapsed_events t n b) i hs e d =
    se_verify_and_check_elapsed_events t n b i hs e d
call_main env (Fn.return_code c) i hs e d = return_code c e d
call_main env (Fn.wait_until_in_time_window a b) i hs e d = se_wait_until_in_time_window env a b e d
call_main env (Fn.wait_until_out_of_time_window a b) i hs e d =
    se_wait_until_out_of_time_window env a b e d
call_main env _ i hs e d = raise type_error

-- the truth value of a oneshot's None
abbrev pub then_false : Action (Unit {0}) → Action Bool
then_false m = do m; pure false

-- `bool(fn(inst, node))`; a function of four arguments raises a TypeError
unfoldable pub call_two : Env → Fn → ℕ → List Handle → Action Bool
call_two env Fn.pred_and i hs = Pred.pred_and hs
call_two env Fn.pred_or i hs = Pred.pred_or hs
call_two env Fn.pred_not i hs = Pred.pred_not hs
call_two env Fn.pred_nor i hs = Pred.pred_nor hs
call_two env Fn.pred_nand i hs = Pred.pred_nand hs
call_two env Fn.pred_xor i hs = Pred.pred_xor hs
call_two env Fn.true_pred i hs = pure true
call_two env Fn.false_pred i hs = pure false
call_two env (Fn.check_event t) i hs = Pred.check_event t
call_two env (Fn.dict_eq k v) i hs = Pred.dict_eq k v
call_two env (Fn.dict_ne k v) i hs = Pred.dict_ne k v
call_two env (Fn.dict_gt k v) i hs = Pred.dict_gt k v
call_two env (Fn.dict_ge k v) i hs = Pred.dict_ge k v
call_two env (Fn.dict_lt k v) i hs = Pred.dict_lt k v
call_two env (Fn.dict_le k v) i hs = Pred.dict_le k v
call_two env (Fn.dict_in_range k v w) i hs = Pred.dict_in_range k v w
call_two env (Fn.dict_inc_and_test k n) i hs = Pred.dict_inc_and_test k n
call_two env (Fn.state_inc_and_test n) i hs = Pred.state_inc_and_test n i
call_two env (Fn.in_time_window a b) i hs = se_in_time_window env a b
call_two env (Fn.log m) i hs = then_false (Oneshot.log m)
call_two env (Fn.dict_log m k) i hs = then_false (Oneshot.dict_log m k)
call_two env (Fn.dict_set k v) i hs = then_false (Oneshot.dict_set k v)
call_two env (Fn.dict_inc k n) i hs = then_false (Oneshot.dict_inc k n)
call_two env (Fn.queue_event e p d) i hs = then_false (Oneshot.queue_event env e p d)
call_two env (Fn.dict_load s) i hs = then_false (Oneshot.dict_load s)
call_two env _ i hs = raise type_error

-- how many nodes a tree has
unfoldable mutual
  pub size : Node → ℕ
  size (node t f ks) = suc (size_all ks)

  pub size_all : Nodes → ℕ
  size_all leaf = 0
  size_all (more n ks) = size n + size_all ks

-- se_runtime/lifecycle.py, `reset_recursive`: the node first, then its children
unfoldable mutual
  pub reset_tree : ℕ → Node → Action (Unit {0})
  reset_tree base (node t f ks) = do reset_node_state base; reset_forest (base + 1) ks

  pub reset_forest : ℕ → Nodes → Action (Unit {0})
  reset_forest base leaf = pure tt
  reset_forest base (more n ks) = do reset_tree base n; reset_forest (base + size n) ks

unfoldable mutual
  pub handle : Env → ℕ → Node → Handle
  handle env base (node t f ks) =
      let hs = handles env (base + 1) ks in
      record {
        id = base;
        call_type = t;
        main = λ e d. call_main env f base hs e d;
        call = call_two env f base hs;
        reset_recursive = reset_tree base (node t f ks);
      }

  pub handles : Env → ℕ → Nodes → List Handle
  handles env base leaf = []
  handles env base (more n ks) = handle env base n ∷ handles env (base + size n) ks
