-- ===== src/SEngine/Dispatch/Lifecycle.antt =====
-- What the dispatcher promises of a node's life: INIT, the event, TERMINATE.
use robot_person.Base.{◌≡◌, sym, ◌∙◌, String, true, false, ◌==◌, if◌then◌else◌, arith}
use robot_person.SEngine.Codes.{Code, se_pipeline_continue, se_pipeline_disable}
use robot_person.SEngine.State.{
  State, Cell, EventData, Action, ok, no_data, pure, get_cell, modify_cell, ◌>>=◌, ◌>>◌, >>=-eq-ok,
}
use robot_person.SEngine.Handle.{io_call, Handle, is_io_call}
use robot_person.SEngine.Dispatch.{
  set_current, ensure_init, finish_disabled, invoke_main, invoke_oneshot, fired, mark_fired,
}
use robot_person.SEngine.Lifecycle.{terminate_child, deactivate_node_state, reset_node_state}

-- a node as `invoke_main` leaves it once it has disabled itself
pub record IsDisabled (c : Cell) : Type 0 where
  pub inactive : c.active ≡ false
  pub uninitialized : c.initialized ≡ false
  pub state_zero : c.state ≡ 0
  pub no_user_data : c.user_data ≡ no_data

-- An inactive node is transparent: it returns SE_PIPELINE_CONTINUE and changes nothing.
pub invoke_main-inactive :
    (h : Handle) (e : String) (d : EventData) (s : State)
    → (s.cells h.id).active ≡ false
    → invoke_main h e d s ≡ (ok se_pipeline_continue, s)
unfolding invoke_main ◌>>=◌
invoke_main-inactive h e d s off = rw off

finish_disabled-IsDisabled :
    (h : Handle) (s t : State) {x : Unit {0}}
    → finish_disabled h s ≡ (ok x, t)
    → IsDisabled (t.cells h.id)
unfolding finish_disabled set_current ◌>>=◌
finish_disabled-IsDisabled h s t p = ground arith

-- the end of `invoke_main`, once the node has returned `result`
finish-IsDisabled :
    (h : Handle) (result : Code) (s t : State)
    → ((if result == se_pipeline_disable then finish_disabled h else pure tt) >> pure result) s
      ≡ (ok se_pipeline_disable, t)
    → IsDisabled (t.cells h.id)
unfolding pure if◌then◌else◌
finish-IsDisabled h result s t p =
    let (x, u, first, last) = >>=-eq-ok _ _ s t p in
    ground (arith, finish_disabled-IsDisabled h s t)

-- the body of `invoke_main` for an active node
active_body : Handle → String → EventData → Action Code
active_body h e d = do
  ensure_init h d
  set_current e d
  result ← h.main e d
  (if result == se_pipeline_disable then finish_disabled h else pure tt)
  pure result

active_body-IsDisabled :
    (h : Handle) (e : String) (d : EventData) (s t : State)
    → active_body h e d s ≡ (ok se_pipeline_disable, t)
    → IsDisabled (t.cells h.id)
unfolding active_body
active_body-IsDisabled h e d s t p =
    let (_, s1, _, p1) = >>=-eq-ok _ _ s t p in
    let (_, s2, _, p2) = >>=-eq-ok _ _ s1 t p1 in
    let (result, s3, _, p3) = >>=-eq-ok _ _ s2 t p2 in finish-IsDisabled h result s3 t p3

invoke_main-active :
    (h : Handle) (e : String) (d : EventData) (s : State)
    → (s.cells h.id).active ≡ true
    → invoke_main h e d s ≡ active_body h e d s
unfolding invoke_main active_body get_cell if◌then◌else◌ ◌>>=◌
invoke_main-active h e d s on = rw on

terminate_child-uninitialized :
    (h : Handle) (t : State)
    → (t.cells h.id).initialized ≡ false
    → terminate_child h t ≡ deactivate_node_state h.id t
unfolding terminate_child ◌>>=◌
terminate_child-uninitialized h t off = ground arith

-- A node that returns SE_PIPELINE_DISABLE is left inactive, uninitialized, with state 0 and no
-- user_data, and a later `child_terminate` of it does not call its function again: it only clears
-- the node's fields.
pub invoke_main-IsDisabled :
    (h : Handle) (e : String) (d : EventData) (s t : State)
    → (s.cells h.id).active ≡ true
    → invoke_main h e d s ≡ (ok se_pipeline_disable, t)
    → IsDisabled (t.cells h.id) × (terminate_child h t ≡ deactivate_node_state h.id t)
invoke_main-IsDisabled h e d s t on p =
    let disabled = active_body-IsDisabled h e d s t (sym (invoke_main-active h e d s on) ∙ p) in
    (disabled, terminate_child-uninitialized h t disabled.uninitialized)

-- the call of a oneshot leaves the fields of all nodes alone, as those of the builtin ones do
abbrev pub LeavesCells : Handle → Type 0
LeavesCells h = (s : State) → (h.call s).1.cells ≡ s.cells

oneshot_fired :
    (h : Handle) (s t : State)
    → LeavesCells h
    → invoke_oneshot h s ≡ (ok tt, t)
    → fired h.call_type (t.cells h.id) ≡ true
unfolding invoke_oneshot ◌>>=◌
oneshot_fired h s t leaves p =
    ground (arith, leaves (modify_cell h.id (mark_fired h.call_type) s).1)

invoke_oneshot-fired :
    (h : Handle) (t : State)
    → fired h.call_type (t.cells h.id) ≡ true
    → invoke_oneshot h t ≡ (ok tt, t)
unfolding invoke_oneshot ◌>>=◌
invoke_oneshot-fired h t f = rw f

-- A oneshot whose call leaves the fields of the nodes alone fires once for each activation: once it
-- has returned, to invoke it again right behind is to do nothing.
pub invoke_oneshot_idem :
    (h : Handle) (s t : State)
    → LeavesCells h
    → invoke_oneshot h s ≡ (ok tt, t)
    → invoke_oneshot h t ≡ (ok tt, t)
invoke_oneshot_idem h s t leaves p = invoke_oneshot-fired h t (oneshot_fired h s t leaves p)

still_fired :
    (h : Handle) (t : State)
    → h.call_type ≡ io_call
    → fired h.call_type (t.cells h.id) ≡ true
    → fired h.call_type ((reset_node_state h.id t).1.cells h.id) ≡ true
unfolding reset_node_state modify_cell if◌then◌else◌ is_io_call
still_fired h t io f = ground arith

-- An io_call oneshot whose call leaves the fields of the nodes alone does not fire again once it has
-- returned, also after the node was reset.
pub invoke_oneshot-reset :
    (h : Handle) (s t : State)
    → h.call_type ≡ io_call
    → LeavesCells h
    → invoke_oneshot h s ≡ (ok tt, t)
    → invoke_oneshot h (reset_node_state h.id t).1 ≡ (ok tt, (reset_node_state h.id t).1)
invoke_oneshot-reset h s t io leaves p =
    invoke_oneshot-fired h _ (still_fired h t io (oneshot_fired h s t leaves p))
