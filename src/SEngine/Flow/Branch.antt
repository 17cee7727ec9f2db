-- ===== src/SEngine/Flow/Branch.antt =====
-- s_engine/se_builtins/flow_control.py: `se_if_then_else` and `se_cond`.
use robot_person.Base.{
  ℕ, zero, suc, ◌+◌, ◌-◌, ◌*◌, ◌/◌, String, Bool, false, ◌||◌, Option, none, some, List, ◌==◌, ltb,
  leb, str_eq, length, if◌then◌else◌,
}
use robot_person.SEngine.Codes.{
  Code, event_init, event_terminate, se_pipeline_continue, se_pipeline_halt, se_pipeline_disable,
  se_pipeline_terminate, se_pipeline_reset, se_pipeline_skip_continue,
}
use robot_person.SEngine.State.{
  UserData, no_data, child_index, EventData, Action, pure, raise, get_cell, modify_cell,
  value_error, ◌>>=◌, ◌>>◌,
}
use robot_person.SEngine.Handle.{Handle}
use robot_person.SEngine.Lifecycle.{
  child_invoke, child_invoke_pred, child_terminate, child_reset, child_reset_recursive,
  children_terminate_all,
}

-- `child_terminate(inst, node, idx); child_reset(inst, node, idx)`
unfoldable pub terminate_reset : List Handle → ℕ → Action (Unit {0})
terminate_reset children idx = do child_terminate children idx; child_reset children idx

-- `child_terminate(inst, node, idx); child_reset_recursive(inst, node, idx)`
unfoldable pub terminate_reset_recursive : List Handle → ℕ → Action (Unit {0})
terminate_reset_recursive children idx = do
  child_terminate children idx
  child_reset_recursive children idx

-- both branches are terminated and reset
unfoldable pub reset_branches : List Handle → Bool → Action (Unit {0})
reset_branches children has_else = do
  terminate_reset children 1
  if has_else then terminate_reset children 2 else pure tt

-- what follows the branch that was invoked
unfoldable pub finish_branch : List Handle → Bool → Code → Action Code
finish_branch children has_else r =
    if ltb r se_pipeline_continue
    then pure r
    else if r == se_pipeline_continue || r == se_pipeline_halt
    then pure r
    else if r == se_pipeline_reset
    then (do reset_branches children has_else; pure se_pipeline_reset)
    else if r == se_pipeline_disable || r == se_pipeline_terminate
    then (do reset_branches children has_else; pure se_pipeline_continue)
    else pure se_pipeline_continue

unfoldable pub se_if_then_else : List Handle → String → EventData → Action Code
se_if_then_else children event_id event_data =
    let has_else = leb 3 (length children) in
    if ltb (length children) 2
    then raise value_error
    else if str_eq event_id event_terminate
    then (do children_terminate_all children; pure se_pipeline_continue)
    else if str_eq event_id event_init
    then pure se_pipeline_continue
    else do
      condition ← child_invoke_pred children 0
      if condition
          then (do
            r ← child_invoke children 1 event_id event_data
            finish_branch children has_else r)
          else if has_else
          then (do
            r ← child_invoke children 2 event_id event_data
            finish_branch children has_else r)
          else pure se_pipeline_continue

-- `node["user_data"]` where it is an index or None
abbrev pub index_of : UserData → Option ℕ
index_of (child_index n) = some n
index_of _ = none

-- `node["user_data"] = idx`
unfoldable pub set_user_data : ℕ → UserData → Action (Unit {0})
set_user_data i d = modify_cell i (λ c. record c { user_data = d })

-- the loop over the pairs from `pair_idx`, `left` of them: the action of the first true predicate
unfoldable pub find_match : List Handle → ℕ → ℕ → Action (Option ℕ)
find_match children pair_idx zero = pure none
find_match children pair_idx (suc left) =
    let rest = find_match children (pair_idx + 1) left in
    do
      holds ← child_invoke_pred children (pair_idx * 2)
      if holds then pure (some (pair_idx * 2 + 1)) else rest

abbrev pub num_pairs : ℕ → Bool → ℕ
num_pairs n has_else = if has_else then (n - 1) / 2 else n / 2

-- `if matched_action is None and has_else`
abbrev pub or_default : Option ℕ → Bool → ℕ → Option ℕ
or_default (some m) has_else n = some m
or_default none has_else n = if has_else then some (n - 1) else none

abbrev pub is_index : Option ℕ → ℕ → Bool
is_index none m = false
is_index (some a) m = a == m

abbrev pub leave_branch : List Handle → Option ℕ → Action (Unit {0})
leave_branch children none = pure tt
leave_branch children (some a) = terminate_reset_recursive children a

-- `if matched_action != active: …`
unfoldable pub switch_branch : ℕ → List Handle → ℕ → Action (Unit {0})
switch_branch i children matched = do
  c ← get_cell i
  if is_index (index_of c.user_data) matched then pure tt else do
    leave_branch children (index_of c.user_data)
    terminate_reset_recursive children matched
    set_user_data i (child_index matched)

unfoldable pub run_matched : ℕ → List Handle → Option ℕ → String → EventData → Action Code
run_matched i children none event_id event_data = pure se_pipeline_continue
run_matched i children (some m) event_id event_data = do
  switch_branch i children m
  r ← child_invoke children m event_id event_data
  if ltb r se_pipeline_continue
      then pure r
      else if r == se_pipeline_reset
      then (do terminate_reset_recursive children m; pure se_pipeline_continue)
      else if r == se_pipeline_disable
          || r == se_pipeline_terminate
          || r == se_pipeline_skip_continue
      then pure r
      else pure se_pipeline_continue

unfoldable pub se_cond : Bool → ℕ → List Handle → String → EventData → Action Code
se_cond has_else i children event_id event_data =
    if str_eq event_id event_terminate
    then (do children_terminate_all children; set_user_data i no_data; pure se_pipeline_continue)
    else if str_eq event_id event_init
    then (do set_user_data i no_data; pure se_pipeline_continue)
    else do
      found ← find_match children 0 (num_pairs (length children) has_else)
      run_matched i children (or_default found has_else (length children)) event_id event_data
