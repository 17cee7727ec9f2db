-- ===== src/ChainTree.antt =====
-- chain_tree/: the second engine, a walker over trees of nodes with an event queue.
pub mod Codes
pub mod Values
pub mod Registry
pub mod State
pub mod EventQueue
pub mod Node
pub mod Walker
pub mod Engine
pub mod Builtins
pub mod Invariants
pub mod Samples
