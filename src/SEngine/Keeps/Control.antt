-- ===== src/SEngine/Keeps/Control.antt =====
-- `se_sequence`, `se_sequence_once`, `se_chain_flow` and `se_while` keep to the evolution rules.
use robot_person.Base.{
  ℕ, ◌+◌, ◌≤◌, ◌<◌, Option, List, [], ◌∷◌, All, String, drop, zero, suc, get_elem?,
}
use robot_person.SEngine.State.{EventData}
use robot_person.SEngine.Handle.{Handle}
use robot_person.SEngine.Lifecycle.{if_child}
use robot_person.SEngine.Flow.Sequence.{
  set_state, terminate_initialized, sequence_loop, se_sequence, terminate_all_initialized,
  once_loop, se_sequence_once,
}
use robot_person.SEngine.Flow.Chain.{chain_loop, se_chain_flow, while_body, se_while}
use robot_person.SEngine.Keeps.{Keeps, Keeps-bind, Keeps-pure, keeps_rules}
use robot_person.SEngine.Keeps.Runtime.{
  IsKept, invoke_any-Keeps, terminate_child-Keeps, if_child-Keeps, child_rules,
}

module _ (lo hi : ℕ) (limit : Option ℕ) where
  pub set_state-Keeps : (i n : ℕ) → lo ≤ i → i < hi → Keeps lo hi limit (set_state i n)
  unfolding set_state
  set_state-Keeps i n l h = search (keeps_rules) depth 8

  terminate_initialized-Keeps :
      (h : Handle) → IsKept lo hi limit h → Keeps lo hi limit (terminate_initialized h)
  unfolding terminate_initialized
  terminate_initialized-Keeps h k = search (keeps_rules, terminate_child-Keeps) depth 8

  pub drop-IsKept :
      (n : ℕ) (hs : List Handle)
      → All (IsKept lo hi limit) hs
      → All (IsKept lo hi limit) (drop n hs)
  drop-IsKept zero hs k = k
  drop-IsKept (suc n) [] k = k
  drop-IsKept (suc n) (h ∷ hs) k = drop-IsKept n hs k.1

  module _ (i : ℕ) (l : lo ≤ i) (u : i < hi) (e : String) (d : EventData) where
    sequence_loop-Keeps :
        (s : ℕ) (hs : List Handle)
        → All (IsKept lo hi limit) hs
        → Keeps lo hi limit (sequence_loop i s hs e d)
    unfolding sequence_loop
    sequence_loop-Keeps s [] k = Keeps-pure lo hi limit _
    sequence_loop-Keeps s (h ∷ hs) k =
        let ih = sequence_loop-Keeps (s + 1) hs k.1 in
        let start = invoke_any-Keeps lo hi limit h k.0 e d in
        let leave = terminate_child-Keeps lo hi limit h k.0 in
        search (keeps_rules, set_state-Keeps) depth 14

    terminated-Keeps :
        (hs : List Handle) (k : All (IsKept lo hi limit) hs) (n : ℕ)
        → Keeps lo hi limit (if_child (get_elem? hs n) terminate_initialized)
    terminated-Keeps hs k n = if_child-Keeps lo hi limit hs n _ k terminate_initialized-Keeps

    pub se_sequence-Keeps :
        (hs : List Handle) → All (IsKept lo hi limit) hs → Keeps lo hi limit (se_sequence i hs e d)
    unfolding se_sequence
    se_sequence-Keeps hs k =
        search (keeps_rules, set_state-Keeps, terminated-Keeps, sequence_loop-Keeps, drop-IsKept)
          depth 14

    terminate_all_initialized-Keeps :
        (hs : List Handle)
        → All (IsKept lo hi limit) hs
        → Keeps lo hi limit (terminate_all_initialized hs)
    unfolding terminate_all_initialized
    terminate_all_initialized-Keeps [] k = Keeps-pure lo hi limit tt
    terminate_all_initialized-Keeps (h ∷ hs) k =
        Keeps-bind lo hi limit _ _ (terminate_initialized-Keeps h k.0)
          (λ _. terminate_all_initialized-Keeps hs k.1)

    once_loop-Keeps :
        (hs : List Handle) → All (IsKept lo hi limit) hs → Keeps lo hi limit (once_loop hs e d)
    unfolding once_loop
    once_loop-Keeps [] k = Keeps-pure lo hi limit tt
    once_loop-Keeps (h ∷ hs) k =
        let ih = once_loop-Keeps hs k.1 in
        let start = invoke_any-Keeps lo hi limit h k.0 e d in search (keeps_rules) depth 12

    pub se_sequence_once-Keeps :
        (hs : List Handle)
        → All (IsKept lo hi limit) hs
        → Keeps lo hi limit (se_sequence_once i hs e d)
    unfolding se_sequence_once
    se_sequence_once-Keeps hs k =
        search (keeps_rules, set_state-Keeps, terminate_all_initialized-Keeps, once_loop-Keeps)
          depth 14

    chain_loop-Keeps :
        (all : List Handle) (k : All (IsKept lo hi limit) all) (n : ℕ) (hs : List Handle)
        → All (IsKept lo hi limit) hs
        → Keeps lo hi limit (chain_loop all n hs e d)
    unfolding chain_loop
    chain_loop-Keeps all k n [] ks = Keeps-pure lo hi limit _
    chain_loop-Keeps all k n (h ∷ hs) ks =
        let start = invoke_any-Keeps lo hi limit h ks.0 e d in
        let leave = terminate_child-Keeps lo hi limit h ks.0 in
        search (keeps_rules, child_rules, λ (m : ℕ). chain_loop-Keeps all k m hs ks.1) depth 20

    pub se_chain_flow-Keeps :
        (hs : List Handle) → All (IsKept lo hi limit) hs → Keeps lo hi limit (se_chain_flow hs e d)
    unfolding se_chain_flow
    se_chain_flow-Keeps hs k = search (keeps_rules, child_rules, chain_loop-Keeps) depth 12

    while_body-Keeps :
        (hs : List Handle) → All (IsKept lo hi limit) hs → Keeps lo hi limit (while_body i hs e d)
    unfolding while_body
    while_body-Keeps hs k = search (keeps_rules, child_rules, set_state-Keeps) depth 14

    pub se_while-Keeps :
        (hs : List Handle) → All (IsKept lo hi limit) hs → Keeps lo hi limit (se_while i hs e d)
    unfolding se_while
    se_while-Keeps hs k =
        search (keeps_rules, child_rules, set_state-Keeps, terminated-Keeps, while_body-Keeps) depth
          16
