-- ===== src/SEngine/Keeps/Whole.antt =====
-- Whole trees keep to the evolution rules: a run touches only the nodes of its tree, takes no
-- `ever_init` back, and only appends to the log and the queues.
use robot_person.Base.{ℕ, ◌+◌, ◌≤◌, ◌<◌, false, List, All, String, arith}
use robot_person.SEngine.State.{State, EventData, Action, Env}
use robot_person.SEngine.Handle.{Handle}
use robot_person.SEngine.Lifecycle.{reset_node_state}
use robot_person.SEngine.Fn.{Fn, Node, Nodes, node, leaf, more}
use robot_person.SEngine.Leaves.Delays.{se_wait_event, se_wait, se_nop, return_code}
use robot_person.SEngine.Leaves.TimeWindow.{se_in_time_window}
use robot_person.SEngine.Leaves.Pred.{check_event}
use robot_person.SEngine.Leaves.Oneshot.{log, dict_set, queue_event}
use robot_person.SEngine.Tree.{
  call_main, then_false, call_two, size, size_all, reset_tree, reset_forest, handle, handles,
}
use robot_person.SEngine.Keeps.{
  Keeps, Keeps-pure, Keeps-raise, Keeps-gets, Keeps-bind, Keeps-write_log, Keeps-set_key,
  Keeps-dict_load, Keeps-push_event, Keeps-modify_cell,
}
use robot_person.SEngine.Keeps.Runtime.{IsKept}
use robot_person.SEngine.Keeps.Control.{
  se_sequence-Keeps, se_sequence_once-Keeps, se_chain_flow-Keeps, se_while-Keeps,
}
use robot_person.SEngine.Keeps.Parallel.{
  se_function_interface-Keeps, se_fork-Keeps, se_fork_join-Keeps,
}
use robot_person.SEngine.Keeps.Selection.{
  se_if_then_else-Keeps, se_cond-Keeps, se_trigger_on_change-Keeps, se_event_dispatch-Keeps,
  se_dict_dispatch-Keeps, se_state_machine-Keeps,
}
use robot_person.SEngine.Keeps.Outer.{
  pred_and-Keeps, pred_or-Keeps, pred_not-Keeps, pred_nor-Keeps, pred_nand-Keeps, pred_xor-Keeps,
  se_verify-Keeps, dict_eq-Keeps, dict_ne-Keeps, dict_gt-Keeps, dict_ge-Keeps, dict_lt-Keeps,
  dict_le-Keeps, dict_in_range-Keeps, dict_log-Keeps, dict_inc_and_test-Keeps, dict_inc-Keeps,
  state_inc_and_test-Keeps, se_time_delay-Keeps, se_wait_timeout-Keeps, elapsed_time-Keeps,
  elapsed_events-Keeps, in_window-Keeps, until_in-Keeps, until_out-Keeps,
}

module _ (lo hi : ℕ) (env : Env) where
  abbrev Kept : {A : Type 0} → Action A → Type 0
  Kept m = Keeps lo hi env.event_queue_limit m

  module _ (i : ℕ) (l : lo ≤ i) (u : i < hi) (hs : List Handle)
      (k : All (IsKept lo hi env.event_queue_limit) hs) where
    call_main-Keeps : (f : Fn) (e : String) (d : EventData) → Kept (call_main env f i hs e d)
    unfolding call_main se_wait_event se_wait se_nop return_code
    call_main-Keeps Fn.sequence e d = se_sequence-Keeps lo hi env.event_queue_limit i l u e d hs k
    call_main-Keeps Fn.sequence_once e d =
        se_sequence_once-Keeps lo hi env.event_queue_limit i l u e d hs k
    call_main-Keeps Fn.function_interface e d =
        se_function_interface-Keeps lo hi env.event_queue_limit i l u e d hs k
    call_main-Keeps Fn.fork e d = se_fork-Keeps lo hi env.event_queue_limit i l u e d hs k
    call_main-Keeps Fn.fork_join e d = se_fork_join-Keeps lo hi env.event_queue_limit i l u e d hs k
    call_main-Keeps Fn.chain_flow e d =
        se_chain_flow-Keeps lo hi env.event_queue_limit i l u e d hs k
    call_main-Keeps Fn.while_loop e d = se_while-Keeps lo hi env.event_queue_limit i l u e d hs k
    call_main-Keeps Fn.if_then_else e d = se_if_then_else-Keeps lo hi env.event_queue_limit hs k e d
    call_main-Keeps (Fn.cond b) e d = se_cond-Keeps lo hi env.event_queue_limit hs k i l u b e d
    call_main-Keeps (Fn.trigger_on_change n) e d =
        se_trigger_on_change-Keeps lo hi env.event_queue_limit hs k i l u n e d
    call_main-Keeps (Fn.event_dispatch m) e d =
        se_event_dispatch-Keeps lo hi env.event_queue_limit hs k i l u m e d
    call_main-Keeps (Fn.state_machine m) e d =
        se_state_machine-Keeps lo hi env.event_queue_limit hs k i l u m e d
    call_main-Keeps (Fn.dict_dispatch key m) e d =
        se_dict_dispatch-Keeps lo hi env.event_queue_limit hs k i l u key m e d
    call_main-Keeps (Fn.time_delay n) e d =
        se_time_delay-Keeps lo hi env.event_queue_limit env i l u e d n
    call_main-Keeps (Fn.wait_event t) e d = Keeps-pure lo hi env.event_queue_limit _
    call_main-Keeps (Fn.wait b) e d = Keeps-pure lo hi env.event_queue_limit _
    call_main-Keeps (Fn.wait_timeout t n) e d =
        se_wait_timeout-Keeps lo hi env.event_queue_limit env i l u e d t n
    call_main-Keeps Fn.nop e d = Keeps-pure lo hi env.event_queue_limit _
    call_main-Keeps (Fn.verify b) e d = se_verify-Keeps lo hi env.event_queue_limit hs k b e d
    call_main-Keeps (Fn.verify_elapsed_time n b) e d =
        elapsed_time-Keeps lo hi env.event_queue_limit env i l u e d hs n b k
    call_main-Keeps (Fn.verify_elapsed_events t n b) e d =
        elapsed_events-Keeps lo hi env.event_queue_limit env i l u e d hs t n b k
    call_main-Keeps (Fn.return_code c) e d = Keeps-pure lo hi env.event_queue_limit _
    call_main-Keeps (Fn.wait_until_in_time_window a b) e d =
        until_in-Keeps lo hi env.event_queue_limit env a b e d
    call_main-Keeps (Fn.wait_until_out_of_time_window a b) e d =
        until_out-Keeps lo hi env.event_queue_limit env a b e d
    call_main-Keeps _ e d = Keeps-raise lo hi env.event_queue_limit _

    then_false-Keeps : (m : Action (Unit {0})) → Kept m → Kept (then_false m)
    then_false-Keeps m km =
        Keeps-bind lo hi env.event_queue_limit _ _ km
          (λ _. Keeps-pure lo hi env.event_queue_limit false)

    call_two-Keeps : (f : Fn) → Kept (call_two env f i hs)
    unfolding call_two check_event se_in_time_window log dict_set queue_event
    call_two-Keeps Fn.pred_and = pred_and-Keeps lo hi env.event_queue_limit hs k
    call_two-Keeps Fn.pred_or = pred_or-Keeps lo hi env.event_queue_limit hs k
    call_two-Keeps Fn.pred_not = pred_not-Keeps lo hi env.event_queue_limit hs k
    call_two-Keeps Fn.pred_nor = pred_nor-Keeps lo hi env.event_queue_limit hs k
    call_two-Keeps Fn.pred_nand = pred_nand-Keeps lo hi env.event_queue_limit hs k
    call_two-Keeps Fn.pred_xor = pred_xor-Keeps lo hi env.event_queue_limit hs k
    call_two-Keeps Fn.true_pred = Keeps-pure lo hi env.event_queue_limit _
    call_two-Keeps Fn.false_pred = Keeps-pure lo hi env.event_queue_limit _
    call_two-Keeps (Fn.check_event t) = Keeps-gets lo hi env.event_queue_limit _
    call_two-Keeps (Fn.dict_eq key v) = dict_eq-Keeps lo hi env.event_queue_limit key v
    call_two-Keeps (Fn.dict_ne key v) = dict_ne-Keeps lo hi env.event_queue_limit key v
    call_two-Keeps (Fn.dict_gt key v) = dict_gt-Keeps lo hi env.event_queue_limit key v
    call_two-Keeps (Fn.dict_ge key v) = dict_ge-Keeps lo hi env.event_queue_limit key v
    call_two-Keeps (Fn.dict_lt key v) = dict_lt-Keeps lo hi env.event_queue_limit key v
    call_two-Keeps (Fn.dict_le key v) = dict_le-Keeps lo hi env.event_queue_limit key v
    call_two-Keeps (Fn.dict_in_range key v w) =
        dict_in_range-Keeps lo hi env.event_queue_limit key v w
    call_two-Keeps (Fn.dict_inc_and_test key n) =
        dict_inc_and_test-Keeps lo hi env.event_queue_limit key n
    call_two-Keeps (Fn.state_inc_and_test n) =
        state_inc_and_test-Keeps lo hi env.event_queue_limit n i l u
    call_two-Keeps (Fn.in_time_window a b) = in_window-Keeps lo hi env.event_queue_limit env a b
    call_two-Keeps (Fn.log m) = then_false-Keeps _ (Keeps-write_log lo hi env.event_queue_limit _)
    call_two-Keeps (Fn.dict_log m key) =
        then_false-Keeps _ (dict_log-Keeps lo hi env.event_queue_limit m key)
    call_two-Keeps (Fn.dict_set key v) =
        then_false-Keeps _ (Keeps-set_key lo hi env.event_queue_limit key v)
    call_two-Keeps (Fn.dict_inc key n) =
        then_false-Keeps _ (dict_inc-Keeps lo hi env.event_queue_limit key n)
    call_two-Keeps (Fn.queue_event e p d) = then_false-Keeps _ (Keeps-push_event lo hi env e d p)
    call_two-Keeps (Fn.dict_load s) =
        then_false-Keeps _ (Keeps-dict_load lo hi env.event_queue_limit s)
    call_two-Keeps _ = Keeps-raise lo hi env.event_queue_limit _

  mutual
    unfolding reset_tree reset_node_state size

    reset_tree-Keeps :
        (n : Node) (base : ℕ) → lo ≤ base → base + size n ≤ hi → Kept (reset_tree base n)
    reset_tree-Keeps (node t f ks) base l u =
        Keeps-bind lo hi env.event_queue_limit _ _
          (Keeps-modify_cell lo hi env.event_queue_limit base _ l (omega arith) (λ c w. w))
          (λ _. reset_forest-Keeps ks (base + 1) (omega arith) (omega arith))

    reset_forest-Keeps :
        (ks : Nodes) (base : ℕ) → lo ≤ base → base + size_all ks ≤ hi → Kept (reset_forest base ks)
    reset_forest-Keeps leaf base l u = Keeps-pure lo hi env.event_queue_limit tt
    reset_forest-Keeps (more n ks) base l u =
        Keeps-bind lo hi env.event_queue_limit _ _ (reset_tree-Keeps n base l (omega arith))
          (λ _. reset_forest-Keeps ks (base + size n) (omega arith) (omega arith))

  mutual
    unfolding handle size

    handle-IsKept :
        (n : Node) (base : ℕ)
        → lo ≤ base
        → base + size n ≤ hi
        → IsKept lo hi env.event_queue_limit (handle env base n)
    handle-IsKept (node t f ks) base l u =
        let low : lo ≤ base + 1 = omega arith in
        let kids = handles-IsKept ks (base + 1) low (omega arith) in
        record {
          low = l;
          high = omega arith;
          main = call_main-Keeps base l (omega arith) _ kids f;
          call = call_two-Keeps base l (omega arith) _ kids f;
          reset = reset_tree-Keeps (node t f ks) base l u;
        }

    pub handles-IsKept :
        (ks : Nodes) (base : ℕ)
        → lo ≤ base
        → base + size_all ks ≤ hi
        → All (IsKept lo hi env.event_queue_limit) (handles env base ks)
    handles-IsKept leaf base l u = tt
    handles-IsKept (more n ks) base l u = (
      handle-IsKept n base l (omega arith),
      handles-IsKept ks (base + size n) (omega arith) (omega arith),
    )
