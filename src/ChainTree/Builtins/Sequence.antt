-- ===== src/ChainTree/Builtins/Sequence.antt =====
-- chain_tree/ct_builtins/sequence_til.py: the sequences that end at the first pass or failure.
pub mod Bounds
use robot_person.Base.{
  ℕ, zero, suc, ◌+◌, String, Bool, true, false, not, Option, none, some, List, [], ◌∷◌, ◌++◌,
  length, get_elem?, str_eq, leb, if◌then◌else◌,
}
use robot_person.ChainTree.Codes.{
  CflCode, cfl_continue, cfl_disable, cfl_timer_event, cfl_event_type_null,
}
use robot_person.ChainTree.Values.{Datum, null, Event}
use robot_person.ChainTree.Registry.{lookup_boolean}
use robot_person.ChainTree.State.{
  World, Kb, Control, Outcome, SequenceState, key_error, index_error, value_error, runtime_error,
  Action, pure, raise, gets, get_control, get_data, modify_control, ◌>>=◌, ◌>>◌,
}
use robot_person.ChainTree.Node.{Program, MainFn, is_enabled}
use robot_person.ChainTree.Engine.{named, call_boolean, enable_node, terminate_node_tree}
use robot_person.ChainTree.Builtins.{ask, fire, is_set, clear_all}

abbrev pub bool_eq : Bool → Bool → Bool
bool_eq true b = b
bool_eq false b = not b

abbrev pub on_present : {A : Type 0} → (A → A) → Option A → Option A
on_present f none = none
on_present f (some a) = some (f a)

abbrev pub write_sequence : (SequenceState → SequenceState) → Control → Control
write_sequence f c = record c { sequence_state = on_present f c.sequence_state }

-- assignments to keys of `node["ct_control"]["sequence_state"]`
unfoldable pub modify_sequence : ℕ → (SequenceState → SequenceState) → Action (Unit {0})
modify_sequence i f = modify_control i (write_sequence f)

-- `state["results"][idx]`, where out of range is as good as None
abbrev pub result_at : List (Option Outcome) → ℕ → Option Outcome
result_at [] i = none
result_at (r ∷ rs) zero = r
result_at (r ∷ rs) (suc i) = result_at rs i

-- The list with an entry written; None fills up a list that is too short.
abbrev pub put_result : List (Option Outcome) → ℕ → Outcome → List (Option Outcome)
put_result [] zero o = some o ∷ []
put_result [] (suc i) o = none ∷ put_result [] i o
put_result (r ∷ rs) zero o = some o ∷ rs
put_result (r ∷ rs) (suc i) o = r ∷ put_result rs i o

abbrev pub nones : List ℕ → List (Option Outcome)
nones [] = []
nones (c ∷ cs) = none ∷ nones cs

abbrev mark : Bool → Datum → Outcome
mark status outcome_data = record { status = status; outcome_data = outcome_data }

module _ (p : Program) where
  -- `_fire_finalize`
  unfoldable pub fire_sequence_finalize : Kb → ℕ → SequenceState → Action (Unit {0})
  fire_sequence_finalize kb i state = fire p state.finalize_fn kb i

  unfoldable pub finish_sequence : Kb → ℕ → SequenceState → Bool → Action CflCode
  finish_sequence kb i state status = do
    modify_sequence i (λ q. record q { final_status = some status })
    fire_sequence_finalize kb i state
    pure cfl_disable

  -- the child at `idx` is done, and the next one, if there is one, is enabled
  unfoldable pub advance : Kb → ℕ → SequenceState → Bool → ℕ → Option ℕ → Action CflCode
  advance kb i state status child none = finish_sequence kb i state status
  advance kb i state status child (some next) = do
    terminate_node_tree p kb child
    modify_sequence i (λ q. record q { current_index = state.current_index + 1 })
    enable_node next
    pure cfl_continue

  unfoldable pub judge :
      Bool → Kb → ℕ → SequenceState → ℕ → Option ℕ → Option Outcome → Action CflCode
  judge stop_on kb i state child next none = raise runtime_error
  judge stop_on kb i state child next (some outcome) =
      if bool_eq outcome.status stop_on
      then finish_sequence kb i state outcome.status
      else advance kb i state outcome.status child next

  -- the active child, by `children[idx]`
  unfoldable pub poll : Bool → Kb → ℕ → SequenceState → Option ℕ → Option ℕ → Action CflCode
  poll stop_on kb i state none next = raise index_error
  poll stop_on kb i state (some child) next = do
    running ← gets (λ s. is_enabled s child)
    if running
        then pure cfl_continue
        else judge stop_on kb i state child next (result_at state.results state.current_index)

  unfoldable pub sequence_tick : Bool → Kb → ℕ → List ℕ → Option SequenceState → Action CflCode
  sequence_tick stop_on kb i children none = raise key_error
  sequence_tick stop_on kb i [] (some state) = pure cfl_disable
  sequence_tick stop_on kb i (c ∷ cs) (some state) =
      poll stop_on kb i state (get_elem? (c ∷ cs) state.current_index)
        (get_elem? (c ∷ cs) (state.current_index + 1))

  unfoldable pub common_main : Bool → MainFn
  common_main stop_on kb name i event = do
    early ← ask p false name kb i event
    if early
        then pure cfl_disable
        else if str_eq event.event_id cfl_timer_event
        then (do
          c ← get_control i
          sequence_tick stop_on kb i (p.nodes i).children c.sequence_state)
        else pure cfl_continue

  unfoldable pub cfl_sequence_pass_main : MainFn
  cfl_sequence_pass_main = common_main true

  unfoldable pub cfl_sequence_fail_main : MainFn
  cfl_sequence_fail_main = common_main false

  abbrev pub new_sequence_state : List ℕ → String → SequenceState
  new_sequence_state children finalize = record {
    current_index = 0;
    results = nones children;
    final_status = none;
    finalize_fn = finalize;
  }

  unfoldable pub start_sequence : List ℕ → ℕ → Action (Unit {0})
  start_sequence [] i = raise value_error
  start_sequence (c ∷ cs) i = do
    d ← get_data i
    modify_control i
        (λ k. record k { sequence_state = some (new_sequence_state (c ∷ cs) d.finalize_fn) })
    clear_all (c ∷ cs)
    enable_node c

  unfoldable pub cfl_sequence_init : Kb → ℕ → Action (Unit {0})
  cfl_sequence_init kb i = start_sequence (p.nodes i).children i

  -- the predicate of `cfl_mark_sequence_if`, by its name
  unfoldable pub mark_if : ℕ → SequenceState → Option String → Kb → ℕ → Action (Unit {0})
  mark_if parent state name kb i =
      if is_set name
      then (do
        fn ← gets (λ s. lookup_boolean s.registry (named name))
        result ← call_boolean p fn kb i cfl_event_type_null "CFL_MARK_PROBE" null
        d ← get_data i
        let outcome = mark result (if result then d.true_data else d.false_data)
        modify_sequence parent
            (λ q. record q { results = put_result q.results q.current_index outcome }))
      else pure tt

  unfoldable pub mark_parent_if : Option ℕ → Option String → Kb → ℕ → Action (Unit {0})
  mark_parent_if none name kb i = pure tt
  mark_parent_if (some parent) name kb i = do
    c ← get_control parent
    elim c.sequence_state [ none ↦ pure tt | some state ↦ mark_if parent state name kb i ]

  unfoldable pub cfl_mark_sequence_if : Kb → ℕ → Action (Unit {0})
  cfl_mark_sequence_if kb i = do d ← get_data i; mark_parent_if d.parent_node d.predicate_fn kb i

-- a parent without a sequence state is left alone
unfoldable pub mark_parent : Option ℕ → Outcome → Action (Unit {0})
mark_parent none outcome = pure tt
mark_parent (some parent) outcome =
    modify_sequence parent
      (λ q. record q { results = put_result q.results q.current_index outcome })

unfoldable pub cfl_mark_sequence : Kb → ℕ → Action (Unit {0})
cfl_mark_sequence kb i = do d ← get_data i; mark_parent d.parent_node (mark d.result d.mark_data)

unfoldable pub cfl_sequence_term : Kb → ℕ → Action (Unit {0})
cfl_sequence_term kb i = pure tt
