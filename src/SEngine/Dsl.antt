-- ===== src/SEngine/Dsl.antt =====
-- s_engine/se_dsl/__init__.py and primitives.py: the functions that build the nodes of a tree. A
-- Python mapping is a list of pairs in the order of insertion, its first entry the one that counts.
pub mod Macros
pub mod Cases
use robot_person.Base.{
  ℕ, suc, ◌+◌, String, Bool, true, false, Option, none, some, List, [], ◌∷◌, ◌++◌, ℤ, lookup,
}
use robot_person.SEngine.Codes.{
  Code, se_continue, se_halt, se_terminate, se_reset, se_disable, se_skip_continue,
  se_function_continue, se_function_halt, se_function_terminate, se_function_reset,
  se_function_disable, se_function_skip_continue, se_pipeline_continue, se_pipeline_halt,
  se_pipeline_terminate, se_pipeline_reset, se_pipeline_disable, se_pipeline_skip_continue,
}
use robot_person.SEngine.Values.{Value, Seconds}
use robot_person.SEngine.State.{EventData, Result, ok, raised, value_error}
use robot_person.SEngine.Queue.{Priority}
use robot_person.SEngine.Handle.{CallType, m_call, o_call, io_call, p_call}
use robot_person.SEngine.Leaves.TimeWindow.{Bound}
use robot_person.SEngine.Fn.{Fn, Node, Nodes, node, leaf, more}

unfoldable pub to_nodes : List Node → Nodes
to_nodes [] = leaf
to_nodes (n ∷ ns) = more n (to_nodes ns)

-- a node with its fields at their defaults, which `fresh_cell` holds
unfoldable pub make_node : Fn → CallType → List Node → Node
make_node f call_type children = node call_type f (to_nodes children)

-- `[…] if n is None else […, n]`
abbrev pub and_optional : List Node → Option Node → List Node
and_optional ns none = ns
and_optional ns (some n) = ns ++ n ∷ []

unfoldable pub sequence : List Node → Node
sequence children = make_node Fn.sequence m_call children

unfoldable pub sequence_once : List Node → Node
sequence_once children = make_node Fn.sequence_once m_call children

unfoldable pub function_interface : List Node → Node
function_interface children = make_node Fn.function_interface m_call children

unfoldable pub fork : List Node → Node
fork children = make_node Fn.fork m_call children

unfoldable pub fork_join : List Node → Node
fork_join children = make_node Fn.fork_join m_call children

unfoldable pub chain_flow : List Node → Node
chain_flow children = make_node Fn.chain_flow m_call children

unfoldable pub while_loop : Node → Node → Node
while_loop pred body = make_node Fn.while_loop m_call (pred ∷ body ∷ [])

unfoldable pub if_then_else : Node → Node → Option Node → Node
if_then_else pred then_ else_ =
    make_node Fn.if_then_else m_call (and_optional (pred ∷ then_ ∷ []) else_)

unfoldable pub if_then : Node → Node → Node
if_then pred then_ = if_then_else pred then_ none

unfoldable pub case_children : List (Node × Node) → List Node
case_children [] = []
case_children ((pred, action) ∷ cases) = pred ∷ action ∷ case_children cases

abbrev pub is_given : Option Node → Bool
is_given none = false
is_given (some _) = true

unfoldable pub cond : List (Node × Node) → Option Node → Node
cond cases default =
    make_node (Fn.cond (is_given default)) m_call (and_optional (case_children cases) default)

unfoldable pub trigger_on_change : Node → Node → Option Node → ℕ → Node
trigger_on_change pred rising falling initial =
    make_node (Fn.trigger_on_change initial) m_call (and_optional (pred ∷ rising ∷ []) falling)

unfoldable pub nop : Node
nop = make_node Fn.nop m_call []

unfoldable pub on_rising_edge : Node → Node → ℕ → Node
on_rising_edge pred action initial = trigger_on_change pred action none initial

unfoldable pub on_falling_edge : Node → Node → ℕ → Node
on_falling_edge pred action initial = trigger_on_change pred nop (some action) initial

module _ {K : Type 0} where
  -- `list(cases.values())`
  unfoldable pub values : List (K × Node) → List Node
  values [] = []
  values ((k, n) ∷ cases) = n ∷ values cases

  -- `{key: idx for idx, key in enumerate(cases)}`, from an index on
  unfoldable pub enumerate : ℕ → List (K × Node) → List (K × ℕ)
  enumerate idx [] = []
  enumerate idx ((k, n) ∷ cases) = (k, idx) ∷ enumerate (suc idx) cases

unfoldable pub event_dispatch : List (String × Node) → Node
event_dispatch cases = make_node (Fn.event_dispatch (enumerate 0 cases)) m_call (values cases)

abbrev pub machine_node :
    Option Node → List (String × Node) → List ((String × String) × String) → String → Result Node
machine_node none states transitions initial = raised value_error
machine_node (some _) states transitions initial = ok (
    make_node
      (Fn.state_machine
        (record { states = enumerate 0 states; transitions = transitions; initial = initial }))
      m_call (values states))

unfoldable pub state_machine :
    List (String × Node) → List ((String × String) × String) → String → Result Node
state_machine states transitions initial =
    machine_node (lookup initial states) states transitions initial

unfoldable pub dict_dispatch : String → List (Value × Node) → Node
dict_dispatch key cases = make_node (Fn.dict_dispatch key (enumerate 0 cases)) m_call (values cases)

unfoldable pub pred_and : List Node → Node
pred_and preds = make_node Fn.pred_and p_call preds

unfoldable pub pred_or : List Node → Node
pred_or preds = make_node Fn.pred_or p_call preds

unfoldable pub pred_not : Node → Node
pred_not p = make_node Fn.pred_not p_call (p ∷ [])

unfoldable pub pred_nor : List Node → Node
pred_nor preds = make_node Fn.pred_nor p_call preds

unfoldable pub pred_nand : List Node → Node
pred_nand preds = make_node Fn.pred_nand p_call preds

unfoldable pub pred_xor : List Node → Node
pred_xor preds = make_node Fn.pred_xor p_call preds

unfoldable pub true_pred : Node
true_pred = make_node Fn.true_pred p_call []

unfoldable pub false_pred : Node
false_pred = make_node Fn.false_pred p_call []

unfoldable pub check_event : String → Node
check_event event_id = make_node (Fn.check_event event_id) p_call []

-- `dict_eq`, `dict_ne`, `dict_gt`, `dict_ge`, `dict_lt` and `dict_le`, by the predicate compared with
unfoldable pub dict_compare : (String → Value → Fn) → String → Value → Node
dict_compare test key value = make_node (test key value) p_call []

unfoldable pub dict_in_range : String → Value → Value → Node
dict_in_range key min max = make_node (Fn.dict_in_range key min max) p_call []

unfoldable pub dict_inc_and_test : String → ℤ → Node
dict_inc_and_test key threshold = make_node (Fn.dict_inc_and_test key threshold) p_call []

unfoldable pub state_inc_and_test : ℕ → Node
state_inc_and_test threshold = make_node (Fn.state_inc_and_test threshold) p_call []

unfoldable pub time_delay : Seconds → Node
time_delay seconds = make_node (Fn.time_delay seconds) m_call []

unfoldable pub wait_event : String → Node
wait_event event_id = make_node (Fn.wait_event event_id) m_call []

unfoldable pub wait : Bool → Node
wait include_tick = make_node (Fn.wait include_tick) m_call []

unfoldable pub wait_timeout : String → Seconds → Node
wait_timeout event_id seconds = make_node (Fn.wait_timeout event_id seconds) m_call []

unfoldable pub verify : Node → Node → Bool → Node
verify pred on_error reset = make_node (Fn.verify reset) m_call (pred ∷ on_error ∷ [])

unfoldable pub verify_and_check_elapsed_time : Node → ℕ → Bool → Node
verify_and_check_elapsed_time on_error timeout reset =
    make_node (Fn.verify_elapsed_time timeout reset) m_call (on_error ∷ [])

unfoldable pub verify_and_check_elapsed_events : Node → String → ℕ → Bool → Node
verify_and_check_elapsed_events on_error target max_count reset =
    make_node (Fn.verify_elapsed_events target max_count reset) m_call (on_error ∷ [])

unfoldable pub log : String → Node
log message = make_node (Fn.log message) o_call []

unfoldable pub dict_log : String → String → Node
dict_log message key = make_node (Fn.dict_log message key) o_call []

unfoldable pub dict_set : String → Value → Node
dict_set key value = make_node (Fn.dict_set key value) o_call []

unfoldable pub dict_inc : String → ℤ → Node
dict_inc key delta = make_node (Fn.dict_inc key delta) o_call []

unfoldable pub queue_event : String → Priority → EventData → Node
queue_event event_id priority data_ = make_node (Fn.queue_event event_id priority data_) o_call []

unfoldable pub dict_load : List (String × Value) → Node
dict_load source = make_node (Fn.dict_load source) io_call []

-- `_rc`: the leaves `return_…`, one for each code
unfoldable pub return_leaf : Code → Node
return_leaf code = make_node (Fn.return_code code) m_call []

unfoldable pub wait_until_in_time_window : Bound → Bound → Node
wait_until_in_time_window start end = make_node (Fn.wait_until_in_time_window start end) m_call []

unfoldable pub wait_until_out_of_time_window : Bound → Bound → Node
wait_until_out_of_time_window start end =
    make_node (Fn.wait_until_out_of_time_window start end) m_call []

unfoldable pub in_time_window : Bound → Bound → Node
in_time_window start end = make_node (Fn.in_time_window start end) p_call []
