-- ===== src/ChainTree/Engine/MainLoop/Drain.antt =====
-- How the drain of the event queue ends.
use robot_person.Base.{
  ℕ, zero, suc, ◌+◌, ◌≡◌, ◌≤◌, ◌<◌, refl, sym, ap, ◌⊎◌, inl, inr, Bool, true, false, Option, none,
  some, List, [], ◌∷◌, length, str_eq, Bool-cases, if◌then◌else◌, arith,
}
use robot_person.ChainTree.Codes.{cfl_terminate_system_event}
use robot_person.ChainTree.Values.{Event}
use robot_person.ChainTree.State.{
  World, Result, ok, raised, Action, pure, gets, modify, and_then, ◌>>=◌, >>=-eq-ok,
}
use robot_person.ChainTree.EventQueue.{pop, pop_from}
use robot_person.ChainTree.Node.{Program, MainFn}
use robot_person.ChainTree.Engine.MainLoop.{
  terminate_all, shutdown_all, execute_event, drain_event, drain,
}

abbrev pub num_queued : World → ℕ
num_queued s = length s.high + length s.normal

-- no event leaves more events queued than it found
abbrev pub QueuesNothing : Program → (ℕ → MainFn) → Type 0
QueuesNothing p mains =
    (e : Event) (s : World) → num_queued (execute_event p mains e s).1 ≤ num_queued s

-- What ended a drain: the empty queues; an event that shuts the system down; or an exception, which
-- is one of an event or of the shutdown.
abbrev pub Ended : Program → (ℕ → MainFn) → Result Bool → World → Type 0
Ended p mains (ok true) t = num_queued t ≡ 0
Ended p mains (ok false) t = (t.active_kbs ≡ []) × (t.cfl_engine_flag ≡ false)
Ended p mains (raised x) t =
    (u : World) × (((e : Event) × (execute_event p mains e u ≡ (raised x, t)))
      ⊎ (shutdown_all p u ≡ (raised x, t)))

-- what a pop does to the number of queued events
abbrev Popped : Option Event × World → ℕ → Type 0
Popped (none, t) n = num_queued t ≡ 0
Popped (some e, t) n = suc (num_queued t) ≡ n

pop_from-Popped :
    (hs ns : List Event) (s : World)
    → s.high ≡ hs
    → s.normal ≡ ns
    → Popped (pop_from hs ns s) (num_queued s)
pop_from-Popped [] [] s p q = rw (p, q) refl
pop_from-Popped [] (e ∷ ns) s p q = ground arith
pop_from-Popped (e ∷ hs) ns s p q = ground arith

pop-Popped : (s : World) → Popped (pop s) (num_queued s)
unfolding pop
pop-Popped s = pop_from-Popped s.high s.normal s refl refl

module _ (p : Program) (mains : ℕ → MainFn) (quiet : QueuesNothing p mains) where
  -- a shutdown that returns leaves no KB active
  after_shutdown-Ended :
      (o : Result (Unit {0}) × World) (u : World)
      → shutdown_all p u ≡ o
      → Ended p mains (and_then o.0 (λ _. pure false) o.1).0 (and_then o.0 (λ _. pure false) o.1).1
  unfolding shutdown_all gets modify pure ◌>>=◌
  after_shutdown-Ended (ok _, t) u e =
      let (_, v, _, q) = >>=-eq-ok (terminate_all p u.active_kbs) _ u t e in
      (
        ap (λ (o : Result (Unit {0}) × World). o.1.active_kbs) (sym q),
        ap (λ (o : Result (Unit {0}) × World). o.1.cfl_engine_flag) (sym q),
      )
  after_shutdown-Ended (raised x, t) u e = (u, inr e)

  after_event-Ended :
      (o : Result (Unit {0}) × World) (e : Event) (u : World) (n : ℕ) (again : Action Bool)
      → execute_event p mains e u ≡ o
      → num_queued o.1 < n
      → ((v : World) → num_queued v < n → Ended p mains (again v).0 (again v).1)
      → Ended p mains (and_then o.0 (λ _. again) o.1).0 (and_then o.0 (λ _. again) o.1).1
  after_event-Ended (ok _, v) e u n again run h ih = ih v h
  after_event-Ended (raised x, v) e u n again run h ih = (u, inl (e, run))

  drain_event-Ended :
      (popped : Option Event) (t : World) (n : ℕ) (again : Action Bool)
      → Popped (popped, t) n
      → ((v : World) → num_queued v < n → Ended p mains (again v).0 (again v).1)
      → Ended p mains (drain_event p mains popped again t).0 (drain_event p mains popped again t).1
  unfolding drain_event pure ◌>>=◌ if◌then◌else◌
  drain_event-Ended none t n again h ih = h
  drain_event-Ended (some e) t n again h ih =
      elim (Bool-cases (str_eq e.event_id cfl_terminate_system_event)) [
        | inl stop ↦ rw stop (after_shutdown-Ended (shutdown_all p t) t refl)
        | inr goes_on ↦ rw goes_on (
            after_event-Ended (execute_event p mains e t) e t n again refl
              (let q = quiet e t in omega arith) ih)
      ]

  drain_loop-Ended :
      (fuel : ℕ) (s : World)
      → num_queued s < fuel
      → Ended p mains (drain p mains fuel s).0 (drain p mains fuel s).1
  unfolding drain ◌>>=◌
  drain_loop-Ended zero s h = absurd (omega arith)
  drain_loop-Ended (suc fuel) s h =
      drain_event-Ended (pop s).0 (pop s).1 (num_queued s) (drain p mains fuel) (pop-Popped s)
        (λ v q. drain_loop-Ended fuel v (omega arith))

-- If no event leaves more events queued than it found, one unit of fuel more than there are queued
-- events is enough: the drain returns True with both queues empty; or False, after an event that
-- terminates the system, with no active KB and the engine's flag cleared; or it raises what the
-- dispatch of an event or the shutdown raised.
pub drain-Ended :
    (p : Program) (mains : ℕ → MainFn) (fuel : ℕ) (s : World)
    → QueuesNothing p mains
    → num_queued s < fuel
    → Ended p mains (drain p mains fuel s).0 (drain p mains fuel s).1
drain-Ended p mains fuel s quiet h = drain_loop-Ended p mains quiet fuel s h
