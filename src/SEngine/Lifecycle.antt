-- ===== src/SEngine/Lifecycle.antt =====
-- s_engine/se_runtime/lifecycle.py: what the control functions do to a child. The children of a
-- node are a list of handles; `child_…` takes an index, `…_child` the child itself.
pub mod Reset
use robot_person.Base.{
  ℕ, String, Bool, true, false, ◌&&◌, Option, none, some, List, [], ◌∷◌, length, get_elem?,
  if◌then◌else◌,
}
use robot_person.SEngine.Codes.{Code, event_terminate}
use robot_person.SEngine.State.{
  Cell, EventData, Action, no_data, no_event_data, pure, raise, get_cell, modify_cell, index_error,
  ◌>>=◌, ◌>>◌,
}
use robot_person.SEngine.Handle.{Handle, is_m_call}
use robot_person.SEngine.Dispatch.{set_current, invoke_any, invoke_oneshot, invoke_pred}

-- the key "deadline", if the node has it, is set to None
abbrev pub clear_deadline : Option (Option ℕ) → Option (Option ℕ)
clear_deadline none = none
clear_deadline (some _) = some none

abbrev pub reset_cell : Cell → Cell
reset_cell c = record c {
  active = true;
  initialized = false;
  state = 0;
  user_data = no_data;
  deadline_key = clear_deadline c.deadline_key;
}

abbrev pub deactivate_cell : Cell → Cell
deactivate_cell c = record c {
  active = false;
  initialized = false;
  state = 0;
  user_data = no_data;
  deadline_key = clear_deadline c.deadline_key;
}

unfoldable pub reset_node_state : ℕ → Action (Unit {0})
reset_node_state i = modify_cell i reset_cell

unfoldable pub deactivate_node_state : ℕ → Action (Unit {0})
deactivate_node_state i = modify_cell i deactivate_cell

unfoldable pub terminate_child : Handle → Action (Unit {0})
terminate_child h = do
  c ← get_cell h.id
  (if is_m_call h.call_type && c.initialized
      then (do
        set_current event_terminate no_event_data
        _ ← h.main event_terminate no_event_data
        pure tt)
      else pure tt)
  deactivate_node_state h.id

-- `children[idx]`, an IndexError out of range
abbrev pub with_child : {A : Type 0} → Option Handle → (Handle → Action A) → Action A
with_child none f = raise index_error
with_child (some h) f = f h

-- nothing out of range
abbrev pub if_child : Option Handle → (Handle → Action (Unit {0})) → Action (Unit {0})
if_child none f = pure tt
if_child (some h) f = f h

unfoldable pub child_invoke : List Handle → ℕ → String → EventData → Action Code
child_invoke children idx event_id event_data =
    with_child (get_elem? children idx) (λ h. invoke_any h event_id event_data)

unfoldable pub child_invoke_pred : List Handle → ℕ → Action Bool
child_invoke_pred children idx = with_child (get_elem? children idx) invoke_pred

unfoldable pub child_invoke_oneshot : List Handle → ℕ → Action (Unit {0})
child_invoke_oneshot children idx = with_child (get_elem? children idx) invoke_oneshot

unfoldable pub child_terminate : List Handle → ℕ → Action (Unit {0})
child_terminate children idx = if_child (get_elem? children idx) terminate_child

unfoldable pub child_reset : List Handle → ℕ → Action (Unit {0})
child_reset children idx = if_child (get_elem? children idx) (λ h. reset_node_state h.id)

unfoldable pub child_reset_recursive : List Handle → ℕ → Action (Unit {0})
child_reset_recursive children idx = if_child (get_elem? children idx) (λ h. h.reset_recursive)

-- the children from the last to the first
unfoldable pub terminate_reversed : List Handle → Action (Unit {0})
terminate_reversed [] = pure tt
terminate_reversed (h ∷ hs) = do terminate_reversed hs; terminate_child h

unfoldable pub children_reset_all : List Handle → Action (Unit {0})
children_reset_all [] = pure tt
children_reset_all (h ∷ hs) = do reset_node_state h.id; children_reset_all hs

unfoldable pub children_terminate_all : List Handle → Action (Unit {0})
children_terminate_all children = do terminate_reversed children; children_reset_all children
