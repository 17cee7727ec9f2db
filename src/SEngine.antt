-- ===== src/SEngine.antt =====
-- s_engine/: the S-expression behaviour-tree engine.
pub mod Codes
pub mod Values
pub mod State
pub mod Queue
pub mod Handle
pub mod Dispatch
pub mod Lifecycle
pub mod Flow
pub mod Routing
pub mod Leaves
pub mod Fn
pub mod Tree
pub mod Tick
pub mod Dsl
pub mod NestedCall
pub mod Serialize
pub mod Keeps
pub mod Samples
