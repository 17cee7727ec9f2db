-- ===== src/SEngine/Tick/Drain.antt =====
-- How the loop of `run_until_idle` ends.
use robot_person.Base.{
  ℕ, zero, suc, ◌≡◌, ◌≤◌, ◌<◌, refl, ◌⊎◌, inl, inr, String, true, Option, none, some, List, [], ◌∷◌,
  Bool-cases, if◌then◌else◌, arith,
}
use robot_person.SEngine.Codes.{Code}
use robot_person.SEngine.State.{
  State, Event, EventData, Result, ok, raised, Action, pure, and_then, ◌>>=◌,
}
use robot_person.SEngine.Queue.{queue_size, pop_from, pop_event}
use robot_person.SEngine.Handle.{Handle}
use robot_person.SEngine.Tick.{
  Drained, idle, out_of_fuel, pop, is_last, drain_event, drain, tick_once, run_until_idle,
}

-- the loop has ended by itself: an exception, a result that completes the tree, or empty queues
abbrev pub Ended : Result Drained → State → Type 0
Ended (raised x) t = Unit
Ended (ok out_of_fuel) t = ⊥
Ended (ok (idle none)) t = queue_size t ≡ 0
Ended (ok (idle (some r))) t = (is_last r ≡ true) ⊎ (queue_size t ≡ 0)

-- no tick leaves more events queued than it found
abbrev pub QueuesNothing : Handle → Type 0
QueuesNothing root =
    (e : String) (d : EventData) (s : State) → queue_size (tick_once root e d s).1 ≤ queue_size s

-- what a pop does to the number of queued events
abbrev pub Popped : Option Event × State → ℕ → Type 0
Popped (none, t) n = (queue_size t ≡ 0)
Popped (some e, t) n = suc (queue_size t) ≡ n

pop_from-Popped :
    (hs ns : List Event) (s : State)
    → s.high_queue ≡ hs
    → s.normal_queue ≡ ns
    → Popped (pop_from hs ns s) (queue_size s)
unfolding queue_size
pop_from-Popped [] [] s p q = ground arith
pop_from-Popped [] (e ∷ ns) s p q = ground arith
pop_from-Popped (e ∷ hs) ns s p q = ground arith

pop_event-Popped : (s : State) → Popped (pop_event s) (queue_size s)
unfolding pop_event
pop_event-Popped s = pop_from-Popped s.high_queue s.normal_queue s refl refl

-- the round goes on behind a tick, whatever the tick did
after_tick-Ended :
    (o : Result Code × State) (n : ℕ) (again : Code → Action Drained)
    → queue_size o.1 < n
    → ((r : Code) (u : State) → queue_size u < n → Ended (again r u).0 (again r u).1)
    → let next = λ (r : Code). if is_last r then pure (idle (some r)) else again r in
      Ended (and_then o.0 next o.1).0 (and_then o.0 next o.1).1
unfolding pure if◌then◌else◌
after_tick-Ended (raised x, u) n again q ih = tt
after_tick-Ended (ok r, u) n again q ih = elim (Bool-cases (is_last r)) [
  | inl final ↦ rw final (inl final)
  | inr goes_on ↦ rw goes_on (ih r u q)
]

module _ (root : Handle) (quiet : QueuesNothing root) where
  drain_event-Ended :
      (last : Option Code) (popped : Option Event) (t : State) (n : ℕ)
      (again : Code → Action Drained)
      → Popped (popped, t) n
      → ((r : Code) (u : State) → queue_size u < n → Ended (again r u).0 (again r u).1)
      → Ended (drain_event root last popped again t).0 (drain_event root last popped again t).1
  unfolding drain_event pure ◌>>=◌
  drain_event-Ended none none t n again p ih = p
  drain_event-Ended (some r) none t n again p ih = inr p
  drain_event-Ended last (some e) t n again p ih =
      after_tick-Ended (tick_once root e.event_id e.event_data t) n again
        (let q = quiet e.event_id e.event_data t in omega arith) ih

  drain-Ended :
      (fuel : ℕ) (last : Option Code) (s : State)
      → queue_size s < fuel
      → Ended (drain fuel root last s).0 (drain fuel root last s).1
  unfolding drain pop ◌>>=◌
  drain-Ended zero last s h = absurd (omega arith)
  drain-Ended (suc fuel) last s h =
      drain_event-Ended last (pop_event s).0 (pop_event s).1 (queue_size s)
        (λ r. drain fuel root (some r)) (pop_event-Popped s)
        (λ r u q. drain-Ended fuel (some r) u (omega arith))

-- If no tick of the tree leaves more events queued than it found, one unit of fuel more than
-- there are queued events is enough: the loop ends by an exception, by a result that completes the
-- tree, or with both queues empty, and it returns None only in the last of these cases.
pub run_until_idle-Ended :
    (root : Handle) (fuel : ℕ) (s : State)
    → QueuesNothing root
    → queue_size s < fuel
    → Ended (run_until_idle fuel root s).0 (run_until_idle fuel root s).1
unfolding run_until_idle
run_until_idle-Ended root fuel s quiet h = drain-Ended root quiet fuel none s h
