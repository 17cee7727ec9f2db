-- ===== src/SEngine/Leaves/Delays/Timing.antt =====
-- When a delay ends, by the timestamps of the events that start and tick it.
use robot_person.SEngine.State.{State}
