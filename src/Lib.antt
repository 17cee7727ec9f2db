-- ===== src/Lib.antt =====
-- The two engines of the repository. The s_engine ticks a tree of nodes: its builtin operators, and the
-- DSL and macros that build the trees. The chain_tree engine walks trees of nodes on events: its
-- registry, queues, walker, node lifecycle, main loop and node types. The skills, the robots and the
-- templates build their behaviour from the trees of both.
--
-- How the parts of the s_engine interact. A tree is a Python dict for each node, with a function, a call type, params
-- and children, and with the fields that the engine writes. `tick_once` gives an event to the root;
-- `invoke_any` calls the function of a node by the node's call type, with INIT in front of the first
-- event and TERMINATE behind a SE_PIPELINE_DISABLE; a control function gives the event on to children
-- of its choice, and terminates and resets them, by what they return. The oneshots write the module's
-- dictionary and its log, and queue events, which `run_until_idle` gives to the tree one by one.
--
-- How the parts of chain_tree interact. The main loop queues timer events for the active KBs and drains
-- the queue; each event is a walk over the tree from its target, down through the enabled nodes. A visit
-- initializes the node, calls its main function by the name in the registry, and turns the code that it
-- returns into effects and a signal for the walk: a teardown of the node, of its parent or of the whole,
-- and where to go on. The main functions of the builtins enable and tear down children and queue events.
--
-- The files, with the paths of the repository that they are about:
--   Base: numbers, texts, lists, integers, tests
--   SEngine/State: the state of a run and the actions on it
--     (s_engine/se_runtime/instance.py, the fields of a node in s_engine/se_dsl/__init__.py)
--   SEngine/Values: the values of the dictionary, with Python's ==, < and truth
--   SEngine/Codes: s_engine/se_runtime/codes.py
--   SEngine/Queue: the event queues of s_engine/se_runtime/instance.py
--   SEngine/Handle: a node as the control functions see it
--   SEngine/Dispatch: s_engine/se_runtime/dispatch.py
--   SEngine/Lifecycle: s_engine/se_runtime/lifecycle.py
--   SEngine/Flow: s_engine/se_builtins/flow_control.py, in Sequence, Fork, Chain, Branch, Trigger
--   SEngine/Routing: s_engine/se_builtins/dispatch.py
--   SEngine/Leaves: s_engine/se_builtins/pred.py, delays.py and return_codes.py, time_window.py,
--     verify.py, oneshot.py
--   SEngine/Fn, SEngine/Tree: the builtin functions by name, and trees of them as handles
--   SEngine/Tick: s_engine/se_runtime/tick.py
--   SEngine/NestedCall: s_engine/se_builtins/nested_call.py
--   SEngine/Serialize: s_engine/se_runtime/serialize.py
--   SEngine/Dsl: s_engine/se_dsl/__init__.py, primitives.py and macros/
--   SEngine/Keeps: what every operator does to the state, by the way it is built, up to whole trees
--   SEngine/Samples: runs of small trees, and the theorems at concrete inputs
--   ChainTree/Codes, ChainTree/EventQueue, ChainTree/Registry, ChainTree/Node, ChainTree/Walker:
--     the files of these names in chain_tree/ct_runtime
--   ChainTree/Values, ChainTree/State: payloads and ports; the state of an engine and actions on it
--   ChainTree/Engine: chain_tree/ct_runtime/engine.py, with the KBs in Kbs and the loops in MainLoop
--   ChainTree/Builtins: chain_tree/ct_builtins, in Column (column.py, control.py, verify.py), Waits,
--     Sequence (sequence_til.py), Machine (state_machine.py), Supervisor, Exception, Streaming,
--     Controlled and System
--   ChainTree/Invariants: what a run keeps, by the way its actions are built, teardowns in Teardown
--   ChainTree/Samples: a small program, and the theorems at concrete inputs
--
-- How state and operations correspond. The identity of a node is a number, and `State.cells` holds its
-- fields active, initialized, ever_init, state and user_data by that number. An operation is an action:
-- it takes the state and gives a result and a state, and where Python raises, the writes before the
-- raise stay. The operators are functions of the node's identity, its params and the handles of its
-- children; a handle is any node, one with a function of the user included, and what a child may be
-- assumed to do is written out as a hypothesis. `Tree.handle` makes handles of a tree of builtin nodes,
-- by recursion on the tree, with the places of the walk of the tree for identities: no dict is shared
-- between two places. Its runs need no fuel. `Tick.drain` takes one unit of fuel for each event that it
-- serves, since a node may queue an event on every tick, so that the loop need not end.
--
-- In chain_tree a node's identity is a number too. `Node.Program` holds what no run changes: the links
-- and function names of the nodes, what the callables do, the clock, and the rounds of a walk; and
-- `State.World` what runs change, with `ct_control`, `data`, the queues and the KBs. A callable of a
-- program is any action. A walk takes one round for each node and one for each list of children that
-- ends; the theorems on walks say how many rounds suffice. `MainLoop.drain` takes one unit of fuel for
-- each event, and `run_loop` one for each round.
--
-- Parameters. The clocks, the local calendar, the product of a float of seconds and the limit on the
-- queues are fields of `State.Env`;
-- clocks give one number for each reading and nothing is assumed of them.
--
-- Bounds. The seconds of a delay, a wait and a retry are finite floats, as whole numbers over powers of
-- two; `int(seconds * 10**9)` rounds, so it is the parameter `to_ns` of `State.Env`, of which nothing is
-- assumed, and a deadline is an integer. The timeouts of the verify nodes and the durations of chain_tree
-- are natural numbers of nanoseconds, and timestamps, indices and the `state` field natural numbers. The values of the
-- dictionary are None, booleans, integers and texts. A mapping is a list of pairs, whose first entry
-- for a key counts. Where chain_tree copies a payload with `dict`, a payload that is itself a
-- node counts as an error.
--
-- A called tree (`se_call_tree`) is modelled apart, over the node's user_data and a child with nodes and
-- queues of its own; `Tree` has no such node. Its drain takes fuel too, and returns none without it.
--
-- Not modelled: modules and their loading and emission, the crash callbacks (they only observe an
-- exception that is raised again), the names of codes; of chain_tree the serialization, the transport,
-- the time windows, the bridge to the s_engine and the DSL; and the other parts of the repository (the
-- template language, the skills, the robots, the user templates).
pub mod Base
pub mod SEngine
pub mod ChainTree
