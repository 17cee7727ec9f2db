-- ===== src/SEngine/Queue/Order.antt =====
-- The two queues together serve the events of high priority first and each priority in the order
-- of its pushes.
use robot_person.Base.{
  ℕ, zero, suc, ◌+◌, ◌≡◌, refl, sym, ◌∙◌, ◌≤◌, none, some, List, [], ◌∷◌, ◌++◌, length, ap,
  if◌then◌else◌, arith,
}
use mathlib.Core.Path.{ap₂}
use mathlib.Core.List.{append-nil, append_assoc}
use robot_person.SEngine.State.{State, Event, Env, modify, raise}
use robot_person.SEngine.Queue.{Priority, high, normal, append_event, push_event, pop_event}

-- pops `fuel` times, or until the queues are empty
unfoldable pub pop_all : ℕ → State → List Event
pop_all zero s = []
pop_all (suc fuel) s = elim (pop_event s).0 [
  | none ↦ []
  | some e ↦ e ∷ pop_all fuel (pop_event s).1
]

-- the events of one priority among those pushed
unfoldable pub pushed : Priority → List (Priority × Event) → List Event
pushed p [] = []
pushed high ((high, e) ∷ es) = e ∷ pushed high es
pushed high ((normal, e) ∷ es) = pushed high es
pushed normal ((high, e) ∷ es) = pushed normal es
pushed normal ((normal, e) ∷ es) = e ∷ pushed normal es

-- the state after a call of `push_event` for each entry
unfoldable pub push_all : Env → List (Priority × Event) → State → State
push_all env [] s = s
push_all env ((p, e) ∷ es) s = push_all env es (push_event env e.event_id e.event_data p s).1

push_event-unlimited :
    (env : Env) (p : Priority) (e : Event) (s : State)
    → env.event_queue_limit ≡ none
    → (push_event env e.event_id e.event_data p s).1 ≡ append_event p e s
unfolding push_event modify raise if◌then◌else◌
push_event-unlimited env p e s free = rw free

abbrev with_queues : List Event → List Event → State → State
with_queues hs ns s = record s { high_queue = hs; normal_queue = ns }

pop_all-lists :
    (k : ℕ) (hs ns : List Event) (s : State)
    → length hs + length ns ≤ k
    → pop_all k (with_queues hs ns s) ≡ hs ++ ns
unfolding pop_all pop_event
pop_all-lists zero [] [] s h = refl
pop_all-lists zero [] (n ∷ ns) s h = absurd (omega arith)
pop_all-lists zero (x ∷ hs) ns s h = absurd (omega arith)
pop_all-lists (suc k) [] [] s h = refl
pop_all-lists (suc k) [] (n ∷ ns) s h = ap (λ l. n ∷ l) (pop_all-lists k [] ns s (omega arith))
pop_all-lists (suc k) (x ∷ hs) ns s h = ap (λ l. x ∷ l) (pop_all-lists k hs ns s (omega arith))

module _ (env : Env) (free : env.event_queue_limit ≡ none) where
  push_all-high :
      (es : List (Priority × Event)) (s : State)
      → (push_all env es s).high_queue ≡ s.high_queue ++ pushed high es
  unfolding push_all pushed
  push_all-high [] s = sym (append-nil s.high_queue)
  push_all-high ((high, e) ∷ es) s =
      ap (λ t. (push_all env es t).high_queue) (push_event-unlimited env high e s free)
      ∙ push_all-high es (append_event high e s)
      ∙ append_assoc s.high_queue (e ∷ []) _
  push_all-high ((normal, e) ∷ es) s =
      ap (λ t. (push_all env es t).high_queue) (push_event-unlimited env normal e s free)
      ∙ push_all-high es (append_event normal e s)

  push_all-normal :
      (es : List (Priority × Event)) (s : State)
      → (push_all env es s).normal_queue ≡ s.normal_queue ++ pushed normal es
  unfolding push_all pushed
  push_all-normal [] s = sym (append-nil s.normal_queue)
  push_all-normal ((high, e) ∷ es) s =
      ap (λ t. (push_all env es t).normal_queue) (push_event-unlimited env high e s free)
      ∙ push_all-normal es (append_event high e s)
  push_all-normal ((normal, e) ∷ es) s =
      ap (λ t. (push_all env es t).normal_queue) (push_event-unlimited env normal e s free)
      ∙ push_all-normal es (append_event normal e s)
      ∙ append_assoc s.normal_queue (e ∷ []) _

-- After any series of pushes without a limit, enough pops serve the queued and pushed events of
-- high priority in the order of their pushes, and behind them those of normal priority in theirs.
pub pop_all-push_all :
    (env : Env) (es : List (Priority × Event)) (s : State) (k : ℕ)
    → env.event_queue_limit ≡ none
    → length (push_all env es s).high_queue + length (push_all env es s).normal_queue ≤ k
    → pop_all k (push_all env es s)
      ≡ (s.high_queue ++ pushed high es) ++ (s.normal_queue ++ pushed normal es)
pop_all-push_all env es s k free h =
    let t = push_all env es s in
    pop_all-lists k t.high_queue t.normal_queue t h
    ∙ ap₂ (λ hs ns. hs ++ ns) (push_all-high env free es s) (push_all-normal env free es s)
