-- ===== src/SEngine/Leaves.antt =====
-- s_engine/se_builtins/: the operators that are not control flow.
pub mod Pred
pub mod Delays
pub mod TimeWindow
pub mod Verify
pub mod Oneshot
