-- ===== src/ChainTree/Builtins/Supervisor/Restarts.antt =====
-- What a supervisor's tick leaves of the children that had failed.
use robot_person.Base.{ℕ, ◌≡◌, true, false}
use robot_person.ChainTree.State.{World, Control, ◌>>◌}

-- enabled, and to be initialized by its next visit
abbrev pub IsRestarted : World → ℕ → Type 0
IsRestarted s j = ((s.control j).enabled ≡ true) × ((s.control j).initialized ≡ false)

abbrev IsFresh : Control → Type 0
IsFresh c = (c.enabled ≡ true) × (c.initialized ≡ false)
