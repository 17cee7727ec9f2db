-- ===== src/ChainTree/Engine/MainLoop.antt =====
-- chain_tree/ct_runtime/engine.py: dispatching an event, timer events, the drain and the main loop.
-- Times are numbers of nanoseconds. The sleep between two rounds has no effect on the engine.
pub mod Clock
pub mod Drain
use robot_person.Base.{
  ℕ, zero, suc, ◌+◌, ◌*◌, ◌/◌, String, Bool, true, false, not, ◌&&◌, Option, none, some, List, [],
  ◌∷◌, str_eq, ltb, if◌then◌else◌,
}
use robot_person.ChainTree.Codes.{
  cfl_event_type_null, cfl_timer_event, cfl_second_event, cfl_minute_event, cfl_hour_event,
  cfl_terminate_system_event,
}
use robot_person.ChainTree.Values.{Datum, null, node_ref, dict, Event}
use robot_person.ChainTree.State.{
  World, Kb, ok, runtime_error, attribute_error, out_of_fuel, Action, pure, raise, gets, modify,
  ◌>>=◌, ◌>>◌,
}
use robot_person.ChainTree.EventQueue.{make_event, enqueue, pop, priority_normal}
use robot_person.ChainTree.Node.{Program, MainFn, is_enabled, enabled_children}
use robot_person.ChainTree.Walker.{walk}
use robot_person.ChainTree.Engine.{execute_node, terminate_node_tree}
use robot_person.ChainTree.Engine.Kbs.{activate_kb, has_active_kbs, delete_kb, kb_of}

abbrev pub second : ℕ
second = 1000000000

-- whether a boundary of `unit` nanoseconds lies between the last tick, if there was one, and now
abbrev pub crossed : ℕ → Option ℕ → ℕ → Bool
crossed unit none now = false
crossed unit (some prev) now = ltb (prev / unit) (now / unit)

unfoldable pub read_time : Program → Action ℕ
read_time p s = (ok (p.get_time s.time_reads), record s { time_reads = s.time_reads + 1 })

-- an event of the engine's clock for the root of a KB
abbrev pub clock_event : Kb → String → Event
clock_event kb event_id =
    make_event (node_ref kb.root) cfl_event_type_null event_id null priority_normal

unfoldable pub enqueue_if : Bool → Event → Action (Unit {0})
enqueue_if b e = if b then enqueue e else pure tt

-- the events of one tick for a KB
unfoldable pub enqueue_clock : Option ℕ → ℕ → Kb → Action (Unit {0})
enqueue_clock prev now kb = do
  enqueue (clock_event kb cfl_timer_event)
  enqueue_if (crossed second prev now) (clock_event kb cfl_second_event)
  enqueue_if (crossed (60 * second) prev now) (clock_event kb cfl_minute_event)
  enqueue_if (crossed (3600 * second) prev now) (clock_event kb cfl_hour_event)

unfoldable pub timer_events : Option ℕ → ℕ → List Kb → Action (Unit {0})
timer_events prev now [] = pure tt
timer_events prev now (kb ∷ kbs) = do
  enabled ← gets (λ s. is_enabled s kb.root)
  if enabled then enqueue_clock prev now kb else pure tt
  timer_events prev now kbs

module _ (p : Program) where
  unfoldable pub generate_timer_events : Action (Unit {0})
  generate_timer_events = do
    now ← read_time p
    prev ← gets (λ s. s.last_clock_time)
    modify (λ s. record s { last_clock_time = some now })
    kbs ← gets (λ s. s.active_kbs)
    timer_events prev now kbs

  unfoldable pub terminate_all : List Kb → Action (Unit {0})
  terminate_all [] = pure tt
  terminate_all (kb ∷ kbs) = do terminate_node_tree p kb kb.root; terminate_all kbs

  unfoldable pub shutdown_all : Action (Unit {0})
  shutdown_all = do
    kbs ← gets (λ s. s.active_kbs)
    terminate_all kbs
    modify (λ s. record s { active_kbs = []; cfl_engine_flag = false })

  unfoldable pub prune : List Kb → Action (Unit {0})
  prune [] = pure tt
  prune (kb ∷ kbs) = do
    enabled ← gets (λ s. is_enabled s kb.root)
    if enabled then pure tt else delete_kb p kb
    prune kbs

  unfoldable pub prune_disabled_kbs : Action (Unit {0})
  prune_disabled_kbs = do kbs ← gets (λ s. s.active_kbs); prune kbs

module _ (p : Program) (mains : ℕ → MainFn) where
  unfoldable pub execute_in : Option Kb → ℕ → Event → Action (Unit {0})
  execute_in none target event = raise runtime_error
  execute_in (some kb) target event =
      walk (execute_node p mains kb event) (enabled_children p) p.rounds target

  -- what is no node has no `_kb`, and what is no dict has no `get`
  unfoldable pub execute_at : Datum → Event → Action (Unit {0})
  execute_at (node_ref target) event = do kb ← gets (kb_of p target); execute_in kb target event
  execute_at (dict fields) event = raise runtime_error
  execute_at _ event = raise attribute_error

  unfoldable pub execute_event : Event → Action (Unit {0})
  execute_event event = execute_at event.target event

  -- what the loop does with what it popped
  unfoldable pub drain_event : Option Event → Action Bool → Action Bool
  drain_event none again = pure true
  drain_event (some event) again =
      if str_eq event.event_id cfl_terminate_system_event
      then (do shutdown_all p; pure false)
      else do execute_event event; again

  -- The loop on fuel, one unit for each event. It tells whether the engine goes on.
  unfoldable pub drain : ℕ → Action Bool
  drain zero = raise out_of_fuel
  drain (suc fuel) = do
    event ← (λ s. let (e, t) = pop s in (ok e, t))
    drain_event event (drain fuel)

  -- The loop of `run` on fuel, a unit for each round, and `fuel` events in a round.
  unfoldable pub run_loop : (fuel rounds : ℕ) → Action (Unit {0})
  run_loop fuel zero = raise out_of_fuel
  run_loop fuel (suc rounds) =
      let again = run_loop fuel rounds in
      do
        goes_on ← gets (λ s. has_active_kbs s && s.cfl_engine_flag)
        if goes_on
            then (do
              generate_timer_events p
              continued ← drain fuel
              if continued
                  then (do
                    prune_disabled_kbs p
                    left ← gets has_active_kbs
                    if left then again else pure tt)
                  else pure tt)
            else pure tt

  unfoldable pub activate_all : List String → Action (Unit {0})
  activate_all [] = pure tt
  activate_all (name ∷ names) = do _ ← activate_kb name; activate_all names

  -- `finally: engine["running"] = False`
  unfoldable pub finally_stopped : Action (Unit {0}) → Action (Unit {0})
  finally_stopped m s = let (r, t) = m s in (r, record t { running = false })

  unfoldable pub run : (fuel rounds : ℕ) → List String → Action (Unit {0})
  run fuel rounds starting = do
    activate_all starting
    modify (λ s. record s { running = true; cfl_engine_flag = true })
    finally_stopped (run_loop fuel rounds)
