-- ===== src/ChainTree/Engine/MainLoop/Clock.antt =====
-- Which events a tick of the engine's clock queues.
use robot_person.Base.{
  ℕ, ◌+◌, ◌*◌, ◌≡◌, sym, ap, ◌∙◌, String, Bool, true, false, Option, some, List, [], ◌∷◌, ◌++◌,
  if◌then◌else◌,
}
use mathlib.Core.List.{append-nil, append_assoc}
use robot_person.ChainTree.Codes.{
  cfl_timer_event, cfl_second_event, cfl_minute_event, cfl_hour_event,
}
use robot_person.ChainTree.Values.{Event}
use robot_person.ChainTree.State.{World, Kb, ok, pure, gets, modify, ◌>>=◌, >>=-ok, ◌>>◌, Action}
use robot_person.ChainTree.EventQueue.{make_event, append_event, enqueue}
use robot_person.ChainTree.Node.{Program, is_enabled}
use robot_person.ChainTree.Engine.MainLoop.{
  second, crossed, clock_event, enqueue_if, enqueue_clock, read_time, timer_events,
  generate_timer_events,
}

abbrev listed : Bool → Event → List Event
listed true e = e ∷ []
listed false e = []

-- the events of one tick for a KB whose root is enabled, by the time of the tick before
abbrev pub kb_events : Option ℕ → ℕ → Kb → List Event
kb_events prev now kb =
    clock_event kb cfl_timer_event
    ∷ (listed (crossed second prev now) (clock_event kb cfl_second_event)
        ++ (listed (crossed (60 * second) prev now) (clock_event kb cfl_minute_event)
            ++ listed (crossed (3600 * second) prev now) (clock_event kb cfl_hour_event)))

abbrev if_enabled : Bool → List Event → List Event
if_enabled true es = es
if_enabled false es = []

abbrev pub all_events : (ℕ → Bool) → Option ℕ → ℕ → List Kb → List Event
all_events enabled prev now [] = []
all_events enabled prev now (kb ∷ kbs) =
    if_enabled (enabled kb.root) (kb_events prev now kb) ++ all_events enabled prev now kbs

-- the world with more events of normal priority
abbrev pub queued : World → List Event → World
queued s es = record s { normal = s.normal ++ es }

enqueue_if-queued :
    (b : Bool) (kb : Kb) (id : String) (s : World) (es : List Event)
    → enqueue_if b (clock_event kb id) (queued s es)
      ≡ (ok tt, queued s (es ++ listed b (clock_event kb id)))
unfolding enqueue_if enqueue append_event make_event modify pure if◌then◌else◌
enqueue_if-queued true kb id s es =
    ap (λ l. (ok tt, record s { normal = l })) (append_assoc s.normal es (clock_event kb id ∷ []))
enqueue_if-queued false kb id s es = ap (λ l. (ok tt, queued s l)) (sym (append-nil es))

enqueue-queued :
    (kb : Kb) (id : String) (s : World) (es : List Event)
    → enqueue (clock_event kb id) (queued s es) ≡ (ok tt, queued s (es ++ clock_event kb id ∷ []))
unfolding enqueue_if if◌then◌else◌
enqueue-queued kb id s es = enqueue_if-queued true kb id s es

-- the four events of a KB
kb_events-queued :
    (prev : Option ℕ) (now : ℕ) (kb : Kb) (s : World) (es : List Event)
    → enqueue_clock prev now kb (queued s es) ≡ (ok tt, queued s (es ++ kb_events prev now kb))
unfolding enqueue_clock
kb_events-queued prev now kb s es =
    let sec = listed (crossed second prev now) (clock_event kb cfl_second_event) in
    let min = listed (crossed (60 * second) prev now) (clock_event kb cfl_minute_event) in
    let hr = listed (crossed (3600 * second) prev now) (clock_event kb cfl_hour_event) in
    let es1 = es ++ clock_event kb cfl_timer_event ∷ [] in
    >>=-ok (enqueue (clock_event kb cfl_timer_event)) _ (enqueue-queued kb cfl_timer_event s es)
    ∙ >>=-ok (enqueue_if (crossed second prev now) (clock_event kb cfl_second_event)) _
        (enqueue_if-queued (crossed second prev now) kb cfl_second_event s es1)
    ∙ >>=-ok (enqueue_if (crossed (60 * second) prev now) (clock_event kb cfl_minute_event)) _
        (enqueue_if-queued (crossed (60 * second) prev now) kb cfl_minute_event s (es1 ++ sec))
    ∙ enqueue_if-queued (crossed (3600 * second) prev now) kb cfl_hour_event s ((es1 ++ sec) ++ min)
    ∙ ap (λ l. (ok tt, queued s l))
        (append_assoc (es1 ++ sec) min hr
          ∙ append_assoc es1 sec (min ++ hr)
          ∙ append_assoc es (clock_event kb cfl_timer_event ∷ []) (sec ++ (min ++ hr)))

kb_round :
    (b : Bool) (prev : Option ℕ) (now : ℕ) (kb : Kb) (s : World) (es : List Event)
    (others : Action (Unit {0}))
    → ((if b then enqueue_clock prev now kb else pure tt) >> others) (queued s es)
      ≡ others (queued s (es ++ if_enabled b (kb_events prev now kb)))
unfolding pure if◌then◌else◌ ◌>>=◌
kb_round true prev now kb s es others =
    >>=-ok (enqueue_clock prev now kb) (λ _. others) (kb_events-queued prev now kb s es)
kb_round false prev now kb s es others = ap (λ l. others (queued s l)) (sym (append-nil es))

timer_events-queued :
    (prev : Option ℕ) (now : ℕ) (kbs : List Kb) (s : World) (es : List Event)
    → timer_events prev now kbs (queued s es)
      ≡ (ok tt, queued s (es ++ all_events (is_enabled s) prev now kbs))
unfolding timer_events pure gets ◌>>=◌
timer_events-queued prev now [] s es = ap (λ l. (ok tt, queued s l)) (sym (append-nil es))
timer_events-queued prev now (kb ∷ kbs) s es =
    kb_round (is_enabled s kb.root) prev now kb s es (timer_events prev now kbs)
    ∙ timer_events-queued prev now kbs s _
    ∙ ap (λ l. (ok tt, queued s l))
        (append_assoc es (if_enabled (is_enabled s kb.root) (kb_events prev now kb)) _)

-- A tick of the clock queues, for the active KBs in their order and only for those whose root is
-- enabled, the timer event and behind it the events of the second, the minute and the hour whose
-- boundary lies between the tick before and now, and none of these at the first tick. All have
-- normal priority; but for the queue, only the time of the tick and the clock reading are written.
pub generate_timer_events-queued :
    (p : Program) (s : World)
    → let now = p.get_time s.time_reads in
      generate_timer_events p s ≡ (
        ok tt,
        queued
            (record s { time_reads = s.time_reads + 1; last_clock_time = some now })
            (all_events (is_enabled s) s.last_clock_time now s.active_kbs),
      )
unfolding generate_timer_events read_time gets modify ◌>>=◌
generate_timer_events-queued p s =
    let now = p.get_time s.time_reads in
    let t = record s { time_reads = s.time_reads + 1; last_clock_time = some now } in
    ap (λ l. timer_events s.last_clock_time now s.active_kbs (record t { normal = l }))
      (sym (append-nil s.normal))
    ∙ timer_events-queued s.last_clock_time now s.active_kbs t []
