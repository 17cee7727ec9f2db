-- ===== src/SEngine/Keeps/Selection.antt =====
-- The branching operators, the edge trigger and the routers keep to the evolution rules.
use robot_person.Base.{ℕ, zero, suc, ◌+◌, ◌≤◌, ◌<◌, Bool, Option, none, some, List, All, String}
use robot_person.SEngine.Codes.{Code}
use robot_person.SEngine.Values.{Value}
use robot_person.SEngine.State.{UserData, EventData}
use robot_person.SEngine.Handle.{Handle}
use robot_person.SEngine.Flow.Branch.{
  terminate_reset, terminate_reset_recursive, reset_branches, finish_branch, se_if_then_else,
  set_user_data, find_match, leave_branch, switch_branch, run_matched, se_cond,
}
use robot_person.SEngine.Flow.Trigger.{trigger_invoke, trigger_edge, se_trigger_on_change}
use robot_person.SEngine.Routing.{
  normalize_routed, invoke_and_handle, terminate_prev, route, terminate_router, se_event_dispatch,
  se_dict_dispatch, Machine, take_transition, run_state, se_state_machine,
}
use robot_person.SEngine.Keeps.{Keeps, Keeps-pure, keeps_rules}
use robot_person.SEngine.Keeps.Runtime.{IsKept, child_rules, child_terminate-Keeps}
use robot_person.SEngine.Keeps.Control.{set_state-Keeps}

module _ (lo hi : ℕ) (limit : Option ℕ) where
  pub set_user_data-Keeps :
      (i : ℕ) (v : UserData) → lo ≤ i → i < hi → Keeps lo hi limit (set_user_data i v)
  unfolding set_user_data
  set_user_data-Keeps i v l h = search keeps_rules depth 8

  module _ (hs : List Handle) (k : All (IsKept lo hi limit) hs) where
    terminate_reset-Keeps : (n : ℕ) → Keeps lo hi limit (terminate_reset hs n)
    unfolding terminate_reset
    terminate_reset-Keeps n = search (keeps_rules, child_rules) depth 8

    terminate_reset_recursive-Keeps : (n : ℕ) → Keeps lo hi limit (terminate_reset_recursive hs n)
    unfolding terminate_reset_recursive
    terminate_reset_recursive-Keeps n = search (keeps_rules, child_rules) depth 8

    reset_branches-Keeps : (b : Bool) → Keeps lo hi limit (reset_branches hs b)
    unfolding reset_branches
    reset_branches-Keeps b = search (keeps_rules, terminate_reset-Keeps) depth 8

    finish_branch-Keeps : (b : Bool) (r : Code) → Keeps lo hi limit (finish_branch hs b r)
    unfolding finish_branch
    finish_branch-Keeps b r = search (keeps_rules, reset_branches-Keeps) depth 12

    pub se_if_then_else-Keeps :
        (e : String) (d : EventData) → Keeps lo hi limit (se_if_then_else hs e d)
    unfolding se_if_then_else
    se_if_then_else-Keeps e d = search (keeps_rules, child_rules, finish_branch-Keeps) depth 16

    find_match-Keeps : (p n : ℕ) → Keeps lo hi limit (find_match hs p n)
    unfolding find_match
    find_match-Keeps p zero = Keeps-pure lo hi limit none
    find_match-Keeps p (suc n) =
        let ih = find_match-Keeps (p + 1) n in search (keeps_rules, child_rules) depth 10

    pub leave_branch-Keeps : (o : Option ℕ) → Keeps lo hi limit (leave_branch hs o)
    leave_branch-Keeps none = Keeps-pure lo hi limit tt
    leave_branch-Keeps (some n) = terminate_reset_recursive-Keeps n

    terminate_prev-Keeps : (o : Option ℕ) → Keeps lo hi limit (terminate_prev hs o)
    terminate_prev-Keeps none = Keeps-pure lo hi limit tt
    terminate_prev-Keeps (some n) = child_terminate-Keeps lo hi limit hs k n

    normalize_routed-Keeps : (n : ℕ) (r : Code) → Keeps lo hi limit (normalize_routed hs n r)
    unfolding normalize_routed
    normalize_routed-Keeps n r = search (keeps_rules, terminate_reset_recursive-Keeps) depth 12

    trigger_invoke-Keeps :
        (n : ℕ) (e : String) (d : EventData) → Keeps lo hi limit (trigger_invoke hs n e d)
    unfolding trigger_invoke
    trigger_invoke-Keeps n e d = search (keeps_rules, child_rules, terminate_reset-Keeps) depth 12

    trigger_edge-Keeps :
        (p n : ℕ) (e : String) (d : EventData) → Keeps lo hi limit (trigger_edge hs p n e d)
    unfolding trigger_edge
    trigger_edge-Keeps p n e d =
        search (keeps_rules, trigger_invoke-Keeps, terminate_reset-Keeps) depth 14

    pub run_state-Keeps :
        (o : Option ℕ) (e : String) (d : EventData) → Keeps lo hi limit (run_state hs o e d)
    unfolding run_state
    run_state-Keeps none e d = Keeps-pure lo hi limit _
    run_state-Keeps (some n) e d =
        search (keeps_rules, child_rules, normalize_routed-Keeps) depth 10

    module _ (i : ℕ) (l : lo ≤ i) (u : i < hi) where
      switch_branch-Keeps : (n : ℕ) → Keeps lo hi limit (switch_branch i hs n)
      unfolding switch_branch
      switch_branch-Keeps n =
          search
            (keeps_rules, leave_branch-Keeps, terminate_reset_recursive-Keeps, set_user_data-Keeps)
            depth 12

      run_matched-Keeps :
          (o : Option ℕ) (e : String) (d : EventData) → Keeps lo hi limit (run_matched i hs o e d)
      unfolding run_matched
      run_matched-Keeps none e d = Keeps-pure lo hi limit _
      run_matched-Keeps (some n) e d =
          search (keeps_rules, child_rules, switch_branch-Keeps, terminate_reset_recursive-Keeps)
            depth 14

      pub se_cond-Keeps :
          (b : Bool) (e : String) (d : EventData) → Keeps lo hi limit (se_cond b i hs e d)
      unfolding se_cond
      se_cond-Keeps b e d =
          search
            (keeps_rules, child_rules, set_user_data-Keeps, find_match-Keeps, run_matched-Keeps)
            depth 12

      pub se_trigger_on_change-Keeps :
          (n : ℕ) (e : String) (d : EventData) → Keeps lo hi limit (se_trigger_on_change n i hs e d)
      unfolding se_trigger_on_change
      se_trigger_on_change-Keeps n e d =
          search (keeps_rules, child_rules, set_state-Keeps, trigger_edge-Keeps) depth 14

      route-Keeps :
          (o : Option ℕ) (e : String) (d : EventData) → Keeps lo hi limit (route i hs o e d)
      unfolding route invoke_and_handle
      route-Keeps none e d = Keeps-pure lo hi limit _
      route-Keeps (some n) e d =
          search
            (
              keeps_rules, child_rules, set_user_data-Keeps, leave_branch-Keeps,
              normalize_routed-Keeps,
            )
            depth 14

      terminate_router-Keeps : Keeps lo hi limit (terminate_router i hs)
      unfolding terminate_router
      terminate_router-Keeps =
          search (keeps_rules, set_user_data-Keeps, terminate_prev-Keeps) depth 10

      pub se_event_dispatch-Keeps :
          (m : List (String × ℕ)) (e : String) (d : EventData)
          → Keeps lo hi limit (se_event_dispatch m i hs e d)
      unfolding se_event_dispatch
      se_event_dispatch-Keeps m e d =
          search (keeps_rules, set_user_data-Keeps, terminate_router-Keeps, route-Keeps) depth 10

      pub se_dict_dispatch-Keeps :
          (key : String) (m : List (Value × ℕ)) (e : String) (d : EventData)
          → Keeps lo hi limit (se_dict_dispatch key m i hs e d)
      unfolding se_dict_dispatch
      se_dict_dispatch-Keeps key m e d =
          search (keeps_rules, set_user_data-Keeps, terminate_router-Keeps, route-Keeps) depth 10

      take_transition-Keeps :
          (m : Machine) (c t : Option String) → Keeps lo hi limit (take_transition m i hs c t)
      unfolding take_transition
      take_transition-Keeps m c none = Keeps-pure lo hi limit _
      take_transition-Keeps m c (some t) =
          search (keeps_rules, set_user_data-Keeps, leave_branch-Keeps) depth 10

      pub se_state_machine-Keeps :
          (m : Machine) (e : String) (d : EventData)
          → Keeps lo hi limit (se_state_machine m i hs e d)
      unfolding se_state_machine
      se_state_machine-Keeps m e d =
          search
            (
              keeps_rules, set_user_data-Keeps, terminate_prev-Keeps, take_transition-Keeps,
              run_state-Keeps,
            )
            depth 14
