-- ===== src/SEngine/Keeps/Runtime.antt =====
-- The dispatcher and the lifecycle helpers keep to the evolution rules if the children do.
use robot_person.Base.{
  ℕ, zero, suc, ◌≤◌, ◌<◌, refl, Option, List, [], ◌∷◌, All, String, if◌then◌else◌, get_elem?,
}
use robot_person.SEngine.State.{EventData, Action, modify_cell}
use robot_person.SEngine.Handle.{CallType, m_call, o_call, io_call, p_call, Handle, is_io_call}
use robot_person.SEngine.Dispatch.{
  ensure_init, finish_disabled, invoke_main, invoke_oneshot, invoke_any, invoke_as, mark_fired,
}
use robot_person.SEngine.Lifecycle.{
  reset_node_state, deactivate_node_state, terminate_child, with_child, if_child, child_invoke,
  child_invoke_pred, child_invoke_oneshot, child_terminate, child_reset, child_reset_recursive,
  terminate_reversed, children_reset_all, children_terminate_all,
}
use robot_person.SEngine.Keeps.{
  Keeps, KeepsEver, Keeps-pure, Keeps-raise, Keeps-modify_cell, Keeps-bind, keeps_rules,
}

module _ (lo hi : ℕ) (limit : Option ℕ) where
  -- a child whose identity lies in the range and whose functions keep to the rules
  pub record IsKept (h : Handle) : Type 0 where
    pub low : lo ≤ h.id
    pub high : h.id < hi
    pub main : (e : String) (d : EventData) → Keeps lo hi limit (h.main e d)
    pub call : Keeps lo hi limit h.call
    pub reset : Keeps lo hi limit h.reset_recursive

  mark_fired-KeepsEver : (t : CallType) → KeepsEver lo hi limit (mark_fired t)
  unfolding if◌then◌else◌ is_io_call
  mark_fired-KeepsEver m_call c h = h
  mark_fired-KeepsEver o_call c h = h
  mark_fired-KeepsEver io_call c h = refl
  mark_fired-KeepsEver p_call c h = h

  module _ (h : Handle) (k : IsKept h) where
    ensure_init-Keeps : (d : EventData) → Keeps lo hi limit (ensure_init h d)
    unfolding ensure_init
    ensure_init-Keeps d = search (keeps_rules, k.low, k.high, k.main) depth 12

    finish_disabled-Keeps : Keeps lo hi limit (finish_disabled h)
    unfolding finish_disabled
    finish_disabled-Keeps = search (keeps_rules, k.low, k.high, k.main) depth 12

    pub invoke_main-Keeps : (e : String) (d : EventData) → Keeps lo hi limit (invoke_main h e d)
    unfolding invoke_main
    invoke_main-Keeps e d =
        search (keeps_rules, k.main, ensure_init-Keeps, finish_disabled-Keeps) depth 12

    mark_fired-Keeps : Keeps lo hi limit (modify_cell h.id (mark_fired h.call_type))
    mark_fired-Keeps =
        Keeps-modify_cell lo hi limit h.id _ k.low k.high (mark_fired-KeepsEver h.call_type)

    pub invoke_oneshot-Keeps : Keeps lo hi limit (invoke_oneshot h)
    unfolding invoke_oneshot
    invoke_oneshot-Keeps =
        let call = k.call in let mark = mark_fired-Keeps in search (keeps_rules) depth 12

    invoke_as-Keeps :
        (t : CallType) (e : String) (d : EventData) → Keeps lo hi limit (invoke_as t h e d)
    invoke_as-Keeps m_call e d = invoke_main-Keeps e d
    invoke_as-Keeps o_call e d = search (keeps_rules, invoke_oneshot-Keeps) depth 12
    invoke_as-Keeps io_call e d = search (keeps_rules, invoke_oneshot-Keeps) depth 12
    invoke_as-Keeps p_call e d = search (keeps_rules, k.call) depth 12

    pub invoke_any-Keeps : (e : String) (d : EventData) → Keeps lo hi limit (invoke_any h e d)
    unfolding invoke_any
    invoke_any-Keeps e d = invoke_as-Keeps h.call_type e d

    pub reset_node_state-Keeps : Keeps lo hi limit (reset_node_state h.id)
    unfolding reset_node_state
    reset_node_state-Keeps = search (keeps_rules, k.low, k.high) depth 12

    pub terminate_child-Keeps : Keeps lo hi limit (terminate_child h)
    unfolding terminate_child deactivate_node_state
    terminate_child-Keeps = search (keeps_rules, k.low, k.high, k.main) depth 12

  -- what a child operation does with the child at an index
  pub with_child-Keeps :
      {A : Type 0} (hs : List Handle) (i : ℕ) (f : Handle → Action A)
      → All IsKept hs
      → ((h : Handle) → IsKept h → Keeps lo hi limit (f h))
      → Keeps lo hi limit (with_child (get_elem? hs i) f)
  with_child-Keeps [] i f k g = Keeps-raise lo hi limit _
  with_child-Keeps (h ∷ hs) zero f k g = g h k.0
  with_child-Keeps (h ∷ hs) (suc i) f k g = with_child-Keeps hs i f k.1 g

  pub if_child-Keeps :
      (hs : List Handle) (i : ℕ) (f : Handle → Action (Unit {0}))
      → All IsKept hs
      → ((h : Handle) → IsKept h → Keeps lo hi limit (f h))
      → Keeps lo hi limit (if_child (get_elem? hs i) f)
  if_child-Keeps [] i f k g = Keeps-pure lo hi limit tt
  if_child-Keeps (h ∷ hs) zero f k g = g h k.0
  if_child-Keeps (h ∷ hs) (suc i) f k g = if_child-Keeps hs i f k.1 g

  terminate_reversed-Keeps :
      (hs : List Handle) → All IsKept hs → Keeps lo hi limit (terminate_reversed hs)
  unfolding terminate_reversed
  terminate_reversed-Keeps [] k = Keeps-pure lo hi limit tt
  terminate_reversed-Keeps (h ∷ hs) k =
      Keeps-bind lo hi limit _ _ (terminate_reversed-Keeps hs k.1)
        (λ _. terminate_child-Keeps h k.0)

  pub children_reset_all-Keeps :
      (hs : List Handle) → All IsKept hs → Keeps lo hi limit (children_reset_all hs)
  unfolding children_reset_all
  children_reset_all-Keeps [] k = Keeps-pure lo hi limit tt
  children_reset_all-Keeps (h ∷ hs) k =
      Keeps-bind lo hi limit _ _ (reset_node_state-Keeps h k.0)
        (λ _. children_reset_all-Keeps hs k.1)

  module _ (hs : List Handle) (k : All IsKept hs) where
    pub children_terminate_all-Keeps : Keeps lo hi limit (children_terminate_all hs)
    unfolding children_terminate_all
    children_terminate_all-Keeps =
        Keeps-bind lo hi limit _ _ (terminate_reversed-Keeps hs k)
          (λ _. children_reset_all-Keeps hs k)

    pub child_invoke-Keeps :
        (i : ℕ) (e : String) (d : EventData) → Keeps lo hi limit (child_invoke hs i e d)
    unfolding child_invoke
    child_invoke-Keeps i e d = with_child-Keeps hs i _ k (λ h kh. invoke_any-Keeps h kh e d)

    pub child_invoke_pred-Keeps : (i : ℕ) → Keeps lo hi limit (child_invoke_pred hs i)
    unfolding child_invoke_pred
    child_invoke_pred-Keeps i = with_child-Keeps hs i _ k (λ h kh. kh.call)

    pub child_invoke_oneshot-Keeps : (i : ℕ) → Keeps lo hi limit (child_invoke_oneshot hs i)
    unfolding child_invoke_oneshot
    child_invoke_oneshot-Keeps i = with_child-Keeps hs i _ k invoke_oneshot-Keeps

    pub child_terminate-Keeps : (i : ℕ) → Keeps lo hi limit (child_terminate hs i)
    unfolding child_terminate
    child_terminate-Keeps i = if_child-Keeps hs i _ k terminate_child-Keeps

    pub child_reset-Keeps : (i : ℕ) → Keeps lo hi limit (child_reset hs i)
    unfolding child_reset
    child_reset-Keeps i = if_child-Keeps hs i _ k reset_node_state-Keeps

    pub child_reset_recursive-Keeps : (i : ℕ) → Keeps lo hi limit (child_reset_recursive hs i)
    unfolding child_reset_recursive
    child_reset_recursive-Keeps i = if_child-Keeps hs i _ k (λ h kh. kh.reset)

pub ruleset child_rules = (
  children_terminate_all-Keeps, children_reset_all-Keeps, child_invoke-Keeps,
  child_invoke_pred-Keeps, child_invoke_oneshot-Keeps, child_terminate-Keeps, child_reset-Keeps,
  child_reset_recursive-Keeps,
)
