-- ===== src/ChainTree/Builtins/Exception/Stages.antt =====
-- The stages of a catch node only go forward.
use robot_person.Base.{
  ℕ, ◌≡◌, ◌≤◌, refl, List, String, Bool, true, false, ◌&&◌, Option, none, some, if◌then◌else◌,
  arith,
}
use mathlib.Core.Path.{subst⁻¹}
use robot_person.ChainTree.Codes.{cfl_continue}
use robot_person.ChainTree.Values.{Datum, Event}
use robot_person.ChainTree.State.{
  World, Kb, Stage, stage_main, stage_recovery, stage_finalize, ExceptionState, pure, modify,
  modify_control, update-cases_eq, ◌>>◌,
}
use robot_person.ChainTree.Node.{Program}
use robot_person.ChainTree.Builtins.Sequence.{on_present}
use robot_person.ChainTree.Builtins.Exception.{
  modify_exception, present_or, current_exception, link, in_main, store_raised, catch_of, post,
  forward_to, enter_recovery, enter_finalize, log_raise, raise_here, handle_raise, next_stage,
  advance_stage, catch_tick, catch_event, cfl_exception_catch_main,
}
use robot_person.ChainTree.Registry.{Registry}
use robot_person.ChainTree.EventQueue.{append_event, enqueue}
use robot_person.ChainTree.Engine.{set_flags, fire_one_shot}
use robot_person.ChainTree.Builtins.{fire}
use robot_person.ChainTree.Invariants.{
  Runs, Keeps, Runs-pure, Runs-gets, Runs-get_control, Runs-if, Runs-if_eq, Runs->>=, Keeps->>=,
  Keeps-gets, Keeps-set_flags, run_rules,
}
use robot_person.ChainTree.Invariants.Teardown.{
  OutlivesTeardown, Keeps-enable_node, Keeps-terminate_node_tree, Keeps-fire_boolean, Keeps-ask,
  Keeps-dict_of, Keeps-int_of,
}

abbrev pub rank : Stage → ℕ
rank stage_main = 0
rank stage_recovery = 1
rank stage_finalize = 2

-- in a stage of at least a rank, with the logging function that the node was set up with
abbrev pub InStage : ℕ → String → ExceptionState → Type 0
InStage k log x = (k ≤ rank x.exception_stage) × (x.logging_fn ≡ log)

abbrev pub StageFrom : ℕ → String → Option ExceptionState → Type 0
StageFrom k log none = ⊥
StageFrom k log (some x) = InStage k log x

-- a catch node in a stage of at least a rank, while the registry is the given one
abbrev pub HasStage : Registry → ℕ → String → ℕ → World → Type 0
HasStage r k log i s = (s.registry ≡ r) × StageFrom k log (s.control i).exception_state

-- What a catch node may run keeps a property: the boolean functions of the program, the termination
-- functions of the nodes, and the node's logging function, by their names in the registry.
pub record IsUndisturbed (p : Program) (log : String) (P : World → Type 0) : Type 0 where
  pub booleans :
      (fn : ℕ) (kb : Kb) (i : ℕ) (event_type event_id : String) (payload : Datum)
      → Keeps P (p.boolean_fn fn kb i event_type event_id payload)
  pub terms : (kb : Kb) (i : ℕ) → Keeps P (fire_one_shot p (p.nodes i).term_fn_name kb i)
  pub logger : (kb : Kb) (i : ℕ) → Keeps P (fire p log kb i)

StageFrom-on_present :
    (k : ℕ) (log : String) (f : ExceptionState → ExceptionState) (o : Option ExceptionState)
    → ((x : ExceptionState) → InStage k log x → InStage k log (f x))
    → StageFrom k log o
    → StageFrom k log (on_present f o)
StageFrom-on_present k log f none keeps h = absurd h
StageFrom-on_present k log f (some x) keeps h = keeps x h

StageFrom-present_or :
    (k : ℕ) (log : String) (o : Option ExceptionState) (x : ExceptionState)
    → StageFrom k log o
    → InStage k log (present_or o x)
StageFrom-present_or k log none x h = absurd h
StageFrom-present_or k log (some y) x h = h

in_main-rank : (k : ℕ) (stage : Stage) → in_main stage ≡ true → k ≤ rank stage → k ≤ 0
in_main-rank k stage_main e h = h
in_main-rank k stage_recovery e h = cc
in_main-rank k stage_finalize e h = cc

and_right : (a b : Bool) → (a && b) ≡ true → b ≡ true
and_right true b h = h
and_right false b h = cc

module _ (p : Program) (r : Registry) (k : ℕ) (log : String) (i : ℕ)
    (functions : IsUndisturbed p log (HasStage r k log i)) where
  abbrev P : World → Type 0
  P = HasStage r k log i

  flags : (e : Bool) (j : ℕ) → Keeps P (modify_control j (set_flags e))
  unfolding modify_control
  flags e j = record {
    at = λ s h. (
      (
        h.0,
        ((Keeps-set_flags (λ c. StageFrom k log c.exception_state) i e j (λ c g. g)).at s h.1).0,
      ),
      tt,
    );
  }

  appended :
      (b : Bool) (s : World) (hs ns : List Event)
      → P s
      → P (if b then record s { high = hs } else record s { normal = ns })
  unfolding if◌then◌else◌
  appended true s hs ns h = h
  appended false s hs ns h = h

  queues : (e : Event) → Keeps P (enqueue e)
  unfolding enqueue append_event modify
  queues e = record { at = λ s h. (appended _ s _ _ h, tt) }

  torn : OutlivesTeardown p P
  torn = record {
    clears = flags false;
    booleans = Keeps-fire_boolean p P functions.booleans;
    terms = functions.terms;
  }

  Keeps-modify_exception :
      (f : ExceptionState → ExceptionState)
      → ((x : ExceptionState) → InStage k log x → InStage k log (f x))
      → Keeps P (modify_exception i f)
  unfolding modify_exception modify_control
  Keeps-modify_exception f keeps = record {
    at = λ s h. (
      (
        h.0,
        update-cases_eq s.control i _ (λ c. StageFrom k log c.exception_state) i
            (λ _. StageFrom-on_present k log f (s.control i).exception_state keeps h.1) h.1,
      ),
      tt,
    );
  }

  Runs-current_exception : (x : ExceptionState) → Runs P (current_exception i x) (InStage k log)
  unfolding current_exception
  Runs-current_exception x =
      Runs-gets P _ (λ s g. StageFrom-present_or k log (s.control i).exception_state x g.1)

  Keeps-enter_recovery : (kb : Kb) (x : ExceptionState) → k ≤ 1 → Keeps P (enter_recovery p kb i x)
  unfolding enter_recovery
  Keeps-enter_recovery kb x h =
      Keeps->>= P _ _ (Keeps-terminate_node_tree p P torn kb x.main_link) (λ _.
        Keeps->>= P _ _ (Keeps-modify_exception _ (λ y g. (h, g.1)))
          (λ _. Keeps-enable_node P flags x.recovery_link))

  Keeps-enter_finalize : (kb : Kb) (x : ExceptionState) → k ≤ 2 → Keeps P (enter_finalize p kb i x)
  unfolding enter_finalize
  Keeps-enter_finalize kb x h =
      Keeps->>= P _ _ (Keeps-terminate_node_tree p P torn kb (link x x.exception_stage)) (λ _.
        Keeps->>= P _ _ (Keeps-modify_exception _ (λ y g. (h, g.1)))
          (λ _. Keeps-enable_node P flags x.finalize_link))

  Keeps-next_stage :
      (kb : Kb) (x : ExceptionState) (stage : Stage)
      → k ≤ rank stage
      → Keeps P (next_stage p kb i x stage)
  unfolding next_stage
  Keeps-next_stage kb x stage_main h =
      Keeps->>= P _ _ (Keeps-enter_finalize kb x (omega arith)) (λ _. Runs-pure P _ tt)
  Keeps-next_stage kb x stage_recovery h =
      Keeps->>= P _ _ (Keeps-enter_finalize kb x (omega arith)) (λ _. Runs-pure P _ tt)
  Keeps-next_stage kb x stage_finalize h = Runs-pure P _ tt

  Keeps-advance_stage :
      (kb : Kb) (x : ExceptionState) → InStage k log x → Keeps P (advance_stage p kb i x)
  unfolding advance_stage
  Keeps-advance_stage kb x h = Keeps->>= P _ _ (Keeps-gets P _) (λ running.
      Runs-if P running _ _ (Runs-pure P _ tt) (Keeps-next_stage kb x x.exception_stage h.0))

  goes_here :
      (forward : Bool) (x : ExceptionState)
      → InStage k log x
      → (if forward then false else in_main x.exception_stage) ≡ true
      → k ≤ 1
  unfolding if◌then◌else◌
  goes_here true x h e = cc
  goes_here false x h e = let z = in_main-rank k x.exception_stage e h.0 in omega arith

  Keeps-post :
      (target : ℕ) (event_id : String) (payload : Datum) (priority : String)
      → Keeps P (post target event_id payload priority)
  unfolding post
  Keeps-post target event_id payload priority = queues _

  Keeps-forward_to : (target : Option ℕ) (payload : Datum) → Keeps P (forward_to target payload)
  unfolding forward_to
  Keeps-forward_to none payload = search run_rules
  Keeps-forward_to (some target) payload = Keeps-post target _ payload _

  Keeps-raise_here :
      (forward : Bool) (kb : Kb) (x : ExceptionState) (event : Event)
      → InStage k log x
      → Keeps P (raise_here p forward kb i x event)
  unfolding raise_here
  Keeps-raise_here forward kb x event h =
      Runs-if_eq P _ _ _
        (λ here.
          Keeps->>= P _ _ (Keeps-enter_recovery kb x (goes_here forward x h here))
            (λ _. Runs-pure P _ tt))
        (λ up.
          Keeps->>= P _ _ (Keeps-forward_to x.parent_exception_node event.payload)
            (λ _. Runs-pure P _ tt))

  Keeps-store_raised : (fn : Option ℕ) (event : Event) → Keeps P (store_raised p fn i event)
  unfolding store_raised
  Keeps-store_raised none event = search run_rules
  Keeps-store_raised (some fn) event =
      Keeps->>= P _ _ (Keeps-dict_of P event.payload) (λ ed. Keeps-modify_exception _ (λ x h. h))

  Keeps-log_raise :
      (kb : Kb) (x : ExceptionState) (event : Event)
      → x.logging_fn ≡ log
      → Keeps P (log_raise p kb i x event)
  unfolding log_raise
  Keeps-log_raise kb x event same =
      Runs-if P _ _ _
        (Keeps->>= P _ _ (Keeps-gets P _) (λ fn.
          Keeps->>= P _ _ (Keeps-store_raised fn event)
            (λ _. subst⁻¹ (λ name. Keeps P (fire p name kb i)) same (functions.logger kb i))))
        (Runs-pure P _ tt)

  Keeps-handle_raise :
      (kb : Kb) (x : ExceptionState) (event : Event)
      → InStage k log x
      → Keeps P (handle_raise p kb i x event)
  unfolding handle_raise
  Keeps-handle_raise kb x event h = Keeps->>= P _ _ (Keeps-log_raise kb x event h.1) (λ _.
      Runs->>= P _ _ (Runs-current_exception x) (λ y g.
        Keeps->>= P _ _ (Keeps-ask p P functions.booleans false _ kb i event) (λ forward.
          Runs->>= P _ _ (Runs-current_exception y)
            (λ z f. Keeps-raise_here forward kb z event f))))

  Keeps-catch_tick :
      (kb : Kb) (x : ExceptionState) → InStage k log x → Keeps P (catch_tick p kb i x)
  unfolding catch_tick
  Keeps-catch_tick kb x h =
      Runs-if_eq P _ _ _
        (λ beats. Keeps->>= P _ _ (Keeps-modify_exception _ (λ y g. g)) (λ _.
          Runs-if P _ _ _
            (Keeps->>= P _ _ (Keeps-modify_exception _ (λ y g. g)) (λ _.
              Keeps->>= P _ _
                (Keeps-enter_recovery kb x (
                  let z =
                    in_main-rank k x.exception_stage (and_right x.heartbeat_enabled _ beats) h.0 in
                  omega arith))
                (λ _. Runs-pure P _ tt)))
            (Keeps-advance_stage kb x h)))
        (λ still. Keeps-advance_stage kb x h)

  -- an event that only writes other keys of the exception's state
  unmoved :
      (f : ExceptionState → ExceptionState)
      → ((y : ExceptionState) → InStage k log y → InStage k log (f y))
      → Keeps P (modify_exception i f >> pure cfl_continue)
  unmoved f same =
      Keeps->>= P _ _ (Keeps-modify_exception f same) (λ _. Runs-pure P cfl_continue tt)

  Keeps-catch_event :
      (kb : Kb) (event : Event) (x : ExceptionState)
      → InStage k log x
      → Keeps P (catch_event p kb i event x)
  unfolding catch_event
  Keeps-catch_event kb event x h = Runs-if P _ _ _ (Keeps-handle_raise kb x event h) (
      Runs-if P _ _ _
        (Keeps->>= P _ _ (Keeps-modify_exception _ (λ y g. g))
          (λ _. Keeps->>= P _ _ (Keeps-int_of P p event.payload) (λ n. unmoved _ (λ y g. g))))
        (Runs-if P _ _ _ (unmoved _ (λ y g. g)) (
          Runs-if P _ _ _ (unmoved _ (λ y g. g)) (
            Runs-if P _ _ _
              (Keeps->>= P _ _ (Keeps-int_of P p event.payload) (λ n. unmoved _ (λ y g. g)))
              (Runs-if P _ _ _ (Keeps-catch_tick kb x h) (Runs-pure P _ tt))))))

  Keeps-catch_of :
      (o : Option ExceptionState) (kb : Kb) (event : Event)
      → StageFrom k log o
      → Keeps P (catch_of p o kb i event)
  unfolding catch_of
  Keeps-catch_of none kb event h = absurd h
  Keeps-catch_of (some x) kb event h = Keeps-catch_event kb event x h

  Keeps-cfl_exception_catch_main :
      (kb : Kb) (name : Option String) (event : Event)
      → Keeps P (cfl_exception_catch_main p kb name i event)
  unfolding cfl_exception_catch_main
  Keeps-cfl_exception_catch_main kb name event =
      Runs->>= P _ _ (Runs-get_control P i (λ s h. h.1))
        (λ c h. Keeps-catch_of c.exception_state kb event h)

-- An event never takes a catch node back to an earlier one of the stages MAIN, RECOVERY and FINALIZE,
-- whether its main function returns or raises. The functions that the catch node may run there must
-- not do so: the boolean functions, the termination functions of the nodes and its logging function,
-- by their names in the registry. A function that sets a catch node up may be registered as well.
pub cfl_exception_catch_main-HasStage :
    (p : Program) (i : ℕ) (kb : Kb) (name : Option String) (event : Event) (s : World)
    (x : ExceptionState)
    → IsUndisturbed p x.logging_fn (HasStage s.registry (rank x.exception_stage) x.logging_fn i)
    → (s.control i).exception_state ≡ some x
    → HasStage s.registry
        (rank x.exception_stage)
        x.logging_fn
        i
        (cfl_exception_catch_main p kb name i event s).1
cfl_exception_catch_main-HasStage p i kb name event s x functions e =
    let k = rank x.exception_stage in
    ((Keeps-cfl_exception_catch_main p s.registry k x.logging_fn i functions kb name event).at s
      (refl, subst⁻¹ (StageFrom k x.logging_fn) e (omega arith, refl))).0
