-- ===== src/SEngine/Keeps/Parallel.antt =====
-- `se_function_interface`, `se_fork` and `se_fork_join` keep to the evolution rules.
use robot_person.Base.{ℕ, ◌≤◌, ◌<◌, Option, none, some, List, [], ◌∷◌, All, String}
use robot_person.SEngine.Codes.{Code}
use robot_person.SEngine.State.{EventData, Action}
use robot_person.SEngine.Handle.{Handle}
use robot_person.SEngine.Flow.Fork.{
  finish_interface, interface_loop, se_function_interface, fork_fire, fork_tick_children,
  count_active_main, or_early, se_fork, se_fork_join,
}
use robot_person.SEngine.Keeps.{Keeps, Keeps-pure, keeps_rules}
use robot_person.SEngine.Keeps.Runtime.{
  IsKept, invoke_any-Keeps, terminate_child-Keeps, reset_node_state-Keeps, child_rules,
}
use robot_person.SEngine.Keeps.Control.{set_state-Keeps}

module _ (lo hi : ℕ) (limit : Option ℕ) where
  or_early-Keeps :
      (o : Option Code) (m : Action Code) → Keeps lo hi limit m → Keeps lo hi limit (or_early o m)
  or_early-Keeps none m k = k
  or_early-Keeps (some r) m k = Keeps-pure lo hi limit r

  count_active_main-Keeps : (hs : List Handle) → Keeps lo hi limit (count_active_main hs)
  unfolding count_active_main
  count_active_main-Keeps [] = Keeps-pure lo hi limit 0
  count_active_main-Keeps (h ∷ hs) =
      let ih = count_active_main-Keeps hs in search keeps_rules depth 10

  module _ (i : ℕ) (l : lo ≤ i) (u : i < hi) (e : String) (d : EventData) where
    finish_interface-Keeps : (n : ℕ) → Keeps lo hi limit (finish_interface i n)
    unfolding finish_interface
    finish_interface-Keeps n = search (keeps_rules, set_state-Keeps) depth 10

    interface_loop-Keeps :
        (n : ℕ) (hs : List Handle)
        → All (IsKept lo hi limit) hs
        → Keeps lo hi limit (interface_loop i n hs e d)
    unfolding interface_loop
    interface_loop-Keeps n [] k = finish_interface-Keeps n
    interface_loop-Keeps n (h ∷ hs) k =
        let start = invoke_any-Keeps lo hi limit h k.0 e d in
        let leave = terminate_child-Keeps lo hi limit h k.0 in
        let again = reset_node_state-Keeps lo hi limit h k.0 in
        search (keeps_rules, finish_interface-Keeps, λ (m : ℕ). interface_loop-Keeps m hs k.1) depth
          20

    pub se_function_interface-Keeps :
        (hs : List Handle)
        → All (IsKept lo hi limit) hs
        → Keeps lo hi limit (se_function_interface i hs e d)
    unfolding se_function_interface
    se_function_interface-Keeps hs k =
        search (keeps_rules, child_rules, set_state-Keeps, interface_loop-Keeps) depth 14

    fork_fire-Keeps : (h : Handle) → IsKept lo hi limit h → Keeps lo hi limit (fork_fire h e d)
    unfolding fork_fire
    fork_fire-Keeps h k =
        let start = invoke_any-Keeps lo hi limit h k e d in
        let low = k.low in let high = k.high in search keeps_rules depth 14

    fork_tick_children-Keeps :
        (hs : List Handle)
        → All (IsKept lo hi limit) hs
        → Keeps lo hi limit (fork_tick_children hs e d)
    unfolding fork_tick_children
    fork_tick_children-Keeps [] k = Keeps-pure lo hi limit none
    fork_tick_children-Keeps (h ∷ hs) k =
        let ih = fork_tick_children-Keeps hs k.1 in
        let fire = fork_fire-Keeps h k.0 in
        let start = invoke_any-Keeps lo hi limit h k.0 e d in
        let leave = terminate_child-Keeps lo hi limit h k.0 in
        let again = k.0.reset in search keeps_rules depth 20

    pub se_fork-Keeps :
        (hs : List Handle) → All (IsKept lo hi limit) hs → Keeps lo hi limit (se_fork i hs e d)
    unfolding se_fork
    se_fork-Keeps hs k =
        search
          (
            keeps_rules, child_rules, set_state-Keeps, fork_tick_children-Keeps, or_early-Keeps,
            count_active_main-Keeps,
          )
          depth 18

    pub se_fork_join-Keeps :
        (hs : List Handle) → All (IsKept lo hi limit) hs → Keeps lo hi limit (se_fork_join hs e d)
    unfolding se_fork_join
    se_fork_join-Keeps hs k =
        search
          (
            keeps_rules, child_rules, fork_tick_children-Keeps, or_early-Keeps,
            count_active_main-Keeps,
          )
          depth 18
