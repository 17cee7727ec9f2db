-- ===== src/SEngine/Dsl/Macros.antt =====
-- s_engine/se_dsl/macros/: subtrees of a fixed shape (tier1.py), and those that a parameter shapes
-- (tier2.py).
use robot_person.Base.{
  ℕ, zero, suc, String, Bool, Option, none, some, List, [], ◌∷◌, ◌++◌, ◌&&◌, str_eq, lookup,
  if◌then◌else◌,
}
use robot_person.SEngine.Values.{Value, Seconds, is_negative, times_power_of_two}
use robot_person.SEngine.State.{Result, ok, raised, value_error}
use robot_person.SEngine.Fn.{Fn, Node}
use robot_person.SEngine.Dsl.{
  fork_join, verify_and_check_elapsed_time, if_then, if_then_else, dict_compare, check_event,
  state_inc_and_test, sequence, time_delay, state_machine,
}

unfoldable pub with_timeout : Node → ℕ → Node → Bool → Node
with_timeout action duration on_timeout reset_on_timeout =
    fork_join (action ∷ verify_and_check_elapsed_time on_timeout duration reset_on_timeout ∷ [])

unfoldable pub guarded_action : Node → Node → Node
guarded_action predicate action = if_then predicate action

unfoldable pub if_dict : String → Value → Node → Option Node → Node
if_dict key value then_ else_ = if_then_else (dict_compare Fn.dict_eq key value) then_ else_

unfoldable pub on_event : String → Node → Node
on_event event_id action = if_then (check_event event_id) action

unfoldable pub every_n_ticks : ℕ → Node → Node
every_n_ticks n action = if_then (state_inc_and_test n) action

-- the children that the attempt `i` appends: its delay, unless it is the first, and its action
unfoldable pub attempt : (ℕ → Node) → Seconds → ℕ → List Node
attempt action_factory base zero = action_factory 0 ∷ []
attempt action_factory base (suc i) =
    time_delay (times_power_of_two base i) ∷ action_factory (suc i) ∷ []

-- the children after the loop `for i in range(attempts)`
unfoldable pub attempts_children : (ℕ → Node) → Seconds → ℕ → List Node
attempts_children action_factory base zero = []
attempts_children action_factory base (suc i) =
    attempts_children action_factory base i ++ attempt action_factory base i

unfoldable pub retry_with_backoff : (ℕ → Node) → ℕ → Seconds → Result Node
unfolding if◌then◌else◌
retry_with_backoff action_factory zero base = raised value_error
retry_with_backoff action_factory (suc attempts) base =
    if is_negative base
    then raised value_error
    else ok (sequence (attempts_children action_factory base (suc attempts)))

-- `transition_map[(frm, ev)] = to`
unfoldable pub set_transition :
    String → String → String → List ((String × String) × String) → List ((String × String) × String)
set_transition frm ev to [] = ((frm, ev), to) ∷ []
set_transition frm ev to (((f, e), t) ∷ map) =
    if str_eq f frm && str_eq e ev
    then ((f, e), to) ∷ map
    else ((f, e), t) ∷ set_transition frm ev to map

-- the checks of one row: both of its states have an action
unfoldable pub check_row : {A : Type 0} → Option Node → Option Node → Result A → Result A
check_row none to rest = raised value_error
check_row (some _) none rest = raised value_error
check_row (some _) (some _) rest = rest

-- the loop over the rows of the table, with the map so far
unfoldable pub transition_map :
    List (String × Node)
    → List (String × (String × String))
    → List ((String × String) × String)
    → Result (List ((String × String) × String))
transition_map states [] map = ok map
transition_map states ((frm, (ev, to)) ∷ rows) map =
    check_row (lookup frm states) (lookup to states)
      (transition_map states rows (set_transition frm ev to map))

abbrev pub machine_of :
    List (String × Node) → String → Result (List ((String × String) × String)) → Result Node
machine_of states initial (raised e) = raised e
machine_of states initial (ok map) = state_machine states map initial

-- the check of the initial state is that of `state_machine`, which raises the same ValueError
unfoldable pub state_machine_from_table :
    List (String × Node) → List (String × (String × String)) → String → Result Node
state_machine_from_table states rows initial =
    machine_of states initial (transition_map states rows [])
