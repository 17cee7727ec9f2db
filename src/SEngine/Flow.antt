-- ===== src/SEngine/Flow.antt =====
-- s_engine/se_builtins/flow_control.py: the control operators. Each takes the identity of its
-- node, its children and the event. A loop over `enumerate(children)` is a recursion on the list.
pub mod Sequence
pub mod Fork
pub mod Chain
pub mod Branch
pub mod Trigger
