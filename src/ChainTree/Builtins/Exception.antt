-- ===== src/ChainTree/Builtins/Exception.antt =====
-- chain_tree/ct_builtins/exception.py: the catch node with its stages, and the heartbeat.
pub mod Stages
use robot_person.Base.{
  ℕ, zero, suc, ◌+◌, ◌==◌, String, Bool, true, false, ◌&&◌, Option, none, some, List, [], ◌∷◌,
  str_eq, leb, if◌then◌else◌,
}
use robot_person.ChainTree.Codes.{
  CflCode, cfl_continue, cfl_disable, cfl_timer_event, cfl_event_type_null,
  cfl_raise_exception_event, cfl_turn_heartbeat_on_event, cfl_turn_heartbeat_off_event,
  cfl_heartbeat_event, cfl_set_exception_step_event,
}
use robot_person.ChainTree.Values.{Datum, null, number, node_ref, dict, Fields, nil, field, Event}
use robot_person.ChainTree.Registry.{lookup_boolean, lookup_one_shot}
use robot_person.ChainTree.State.{
  World, Kb, Control, Stage, stage_main, stage_recovery, stage_finalize, ExceptionState, key_error,
  value_error, runtime_error, Action, pure, raise, gets, get_control, get_data, modify_control,
  ◌>>=◌, ◌>>◌,
}
use robot_person.ChainTree.EventQueue.{make_event, enqueue, priority_high, priority_normal}
use robot_person.ChainTree.Node.{Program, MainFn, is_enabled, walk_ancestors}
use robot_person.ChainTree.Engine.{named, enable_node, terminate_node_tree}
use robot_person.ChainTree.Builtins.{ask, fire, clear_all, dict_of, int_of, is_set}
use robot_person.ChainTree.Builtins.Sequence.{on_present}

unfoldable pub modify_exception : ℕ → (ExceptionState → ExceptionState) → Action (Unit {0})
modify_exception i f =
    modify_control i (λ c. record c { exception_state = on_present f c.exception_state })

abbrev pub present_or : {A : Type 0} → Option A → A → A
present_or none a = a
present_or (some b) a = b

-- `state` again, behind a call of a function
unfoldable pub current_exception : ℕ → ExceptionState → Action ExceptionState
current_exception i state = gets (λ s. present_or (s.control i).exception_state state)

-- `state["catch_links"][stage]`
abbrev pub link : ExceptionState → Stage → ℕ
link x stage_main = x.main_link
link x stage_recovery = x.recovery_link
link x stage_finalize = x.finalize_link

abbrev pub in_main : Stage → Bool
in_main stage_main = true
in_main stage_recovery = false
in_main stage_finalize = false

unfoldable pub post : ℕ → String → Datum → String → Action (Unit {0})
post target event_id payload priority =
    enqueue (make_event (node_ref target) cfl_event_type_null event_id payload priority)

-- the exception's dict goes to the next catch node, if there is one
unfoldable pub forward_to : Option ℕ → Datum → Action (Unit {0})
forward_to none payload = pure tt
forward_to (some target) payload = post target cfl_raise_exception_event payload priority_high

module _ (p : Program) where
  abbrev pub is_catch : ℕ → Bool
  is_catch i = str_eq (named (p.nodes i).main_fn_name) "CFL_EXCEPTION_CATCH_MAIN"

  abbrev pub first_catch : List ℕ → Option ℕ
  first_catch [] = none
  first_catch (i ∷ is) = elim (is_catch i) [ true ↦ some i | false ↦ first_catch is ]

  unfoldable pub find_catch_ancestor : ℕ → Option ℕ
  find_catch_ancestor i = first_catch (walk_ancestors p i)

  unfoldable pub enter_recovery : Kb → ℕ → ExceptionState → Action (Unit {0})
  enter_recovery kb i state = do
    terminate_node_tree p kb state.main_link
    modify_exception i (λ x. record x { exception_stage = stage_recovery })
    enable_node state.recovery_link

  unfoldable pub enter_finalize : Kb → ℕ → ExceptionState → Action (Unit {0})
  enter_finalize kb i state = do
    terminate_node_tree p kb (link state state.exception_stage)
    modify_exception i (λ x. record x { exception_stage = stage_finalize })
    enable_node state.finalize_link

  abbrev pub new_exception_state : ℕ → (m r f : ℕ) → (logging filter : String) → ExceptionState
  new_exception_state i m r f logging filter = record {
    exception_stage = stage_main;
    main_link = m;
    recovery_link = r;
    finalize_link = f;
    parent_exception_node = find_catch_ancestor i;
    logging_fn = logging;
    boolean_filter_fn = filter;
    raised_exception = none;
    heartbeat_enabled = false;
    heartbeat_time_out = 0;
    heartbeat_count = 0;
    step_count = 0;
  }

  unfoldable pub start_catch : ℕ → List ℕ → Action (Unit {0})
  start_catch i (m ∷ r ∷ f ∷ []) = do
    d ← get_data i
    modify_control i (λ c. record c {
      exception_state = some (new_exception_state i m r f d.logging_fn d.boolean_filter_fn);
    })
    clear_all (m ∷ r ∷ f ∷ [])
    enable_node m
  start_catch i _ = raise value_error

  unfoldable pub cfl_exception_catch_init : Kb → ℕ → Action (Unit {0})
  cfl_exception_catch_init kb i = start_catch i (p.nodes i).children

  -- the exception is stored on the node for the logging function, if there is one of that name
  unfoldable pub store_raised : Option ℕ → ℕ → Event → Action (Unit {0})
  store_raised none i event = pure tt
  store_raised (some fn) i event = do
    ed ← dict_of event.payload
    modify_exception i (λ x. record x { raised_exception = some ed })

  unfoldable pub log_raise : Kb → ℕ → ExceptionState → Event → Action (Unit {0})
  log_raise kb i state event =
      if is_set (some state.logging_fn)
      then (do
        fn ← gets (λ s. lookup_one_shot s.registry state.logging_fn)
        store_raised fn i event
        fire p state.logging_fn kb i)
      else pure tt

  -- after the filter has spoken: here in the stage MAIN, or up to the next catch node
  unfoldable pub raise_here : Bool → Kb → ℕ → ExceptionState → Event → Action CflCode
  raise_here forward kb i state event =
      if (if forward then false else in_main state.exception_stage)
      then (do enter_recovery kb i state; pure cfl_continue)
      else do forward_to state.parent_exception_node event.payload; pure cfl_disable

  unfoldable pub handle_raise : Kb → ℕ → ExceptionState → Event → Action CflCode
  handle_raise kb i state event = do
    log_raise kb i state event
    logged ← current_exception i state
    forward ← ask p false (some logged.boolean_filter_fn) kb i event
    filtered ← current_exception i logged
    raise_here forward kb i filtered event

  -- the child of the current stage is done: the next stage, or the end
  unfoldable pub next_stage : Kb → ℕ → ExceptionState → Stage → Action CflCode
  next_stage kb i state stage_main = do enter_finalize kb i state; pure cfl_continue
  next_stage kb i state stage_recovery = do enter_finalize kb i state; pure cfl_continue
  next_stage kb i state stage_finalize = pure cfl_disable

  unfoldable pub advance_stage : Kb → ℕ → ExceptionState → Action CflCode
  advance_stage kb i state = do
    running ← gets (λ s. is_enabled s (link state state.exception_stage))
    if running then pure cfl_continue else next_stage kb i state state.exception_stage

  unfoldable pub catch_tick : Kb → ℕ → ExceptionState → Action CflCode
  catch_tick kb i state =
      if state.heartbeat_enabled && in_main state.exception_stage
      then (do
        modify_exception i (λ x. record x { heartbeat_count = x.heartbeat_count + 1 })
        if leb state.heartbeat_time_out (state.heartbeat_count + 1)
            then (do
              modify_exception i (λ x. record x { heartbeat_enabled = false })
              enter_recovery kb i state
              pure cfl_continue)
            else advance_stage kb i state)
      else advance_stage kb i state

  unfoldable pub catch_event : Kb → ℕ → Event → ExceptionState → Action CflCode
  catch_event kb i event state =
      if str_eq event.event_id cfl_raise_exception_event
      then handle_raise kb i state event
      else if str_eq event.event_id cfl_turn_heartbeat_on_event
      then (do
        modify_exception i (λ x. record x { heartbeat_enabled = true })
        n ← int_of p event.payload
        modify_exception i (λ x. record x { heartbeat_time_out = n; heartbeat_count = 0 })
        pure cfl_continue)
      else if str_eq event.event_id cfl_turn_heartbeat_off_event
      then (do modify_exception i (λ x. record x { heartbeat_enabled = false }); pure cfl_continue)
      else if str_eq event.event_id cfl_heartbeat_event
      then (do modify_exception i (λ x. record x { heartbeat_count = 0 }); pure cfl_continue)
      else if str_eq event.event_id cfl_set_exception_step_event
      then (do
        n ← int_of p event.payload
        modify_exception i (λ x. record x { step_count = n })
        pure cfl_continue)
      else if str_eq event.event_id cfl_timer_event
      then catch_tick kb i state
      else pure cfl_continue

  unfoldable pub catch_of : Option ExceptionState → Kb → ℕ → Event → Action CflCode
  catch_of none kb i event = raise key_error
  catch_of (some state) kb i event = catch_event kb i event state

  unfoldable pub cfl_exception_catch_main : MainFn
  cfl_exception_catch_main kb name i event = do
    c ← get_control i
    catch_of c.exception_state kb i event

  -- posts to the nearest catch node; without one it is an error
  abbrev post_or_raise : Option ℕ → String → Datum → String → Action (Unit {0})
  post_or_raise none event_id payload priority = raise runtime_error
  post_or_raise (some target) event_id payload priority = post target event_id payload priority

  abbrev post_if : Option ℕ → String → Datum → Action (Unit {0})
  post_if none event_id payload = pure tt
  post_if (some target) event_id payload = post target event_id payload priority_normal

  unfoldable pub cfl_raise_exception : Kb → ℕ → Action (Unit {0})
  cfl_raise_exception kb i = do
    d ← get_data i
    post_or_raise (find_catch_ancestor i) cfl_raise_exception_event
        (dict (
          field "exception_id" d.exception_id
            (field "exception_data" d.exception_data (field "raising_node" (node_ref i) nil))))
        priority_high

  unfoldable pub cfl_turn_heartbeat_on : Kb → ℕ → Action (Unit {0})
  cfl_turn_heartbeat_on kb i = do
    d ← get_data i
    post_or_raise (find_catch_ancestor i) cfl_turn_heartbeat_on_event (number d.timeout)
        priority_normal

  unfoldable pub cfl_turn_heartbeat_off : Kb → ℕ → Action (Unit {0})
  cfl_turn_heartbeat_off kb i = post_if (find_catch_ancestor i) cfl_turn_heartbeat_off_event null

  unfoldable pub heartbeat_event : Kb → ℕ → Action (Unit {0})
  heartbeat_event kb i = post_if (find_catch_ancestor i) cfl_heartbeat_event null

  unfoldable pub cfl_set_exception_step : Kb → ℕ → Action (Unit {0})
  cfl_set_exception_step kb i = do
    d ← get_data i
    post_if (find_catch_ancestor i) cfl_set_exception_step_event (number d.step)

unfoldable pub cfl_exception_catch_term : Kb → ℕ → Action (Unit {0})
cfl_exception_catch_term kb i = pure tt
