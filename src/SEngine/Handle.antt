-- ===== src/SEngine/Handle.antt =====
-- A node as the engine's control functions see it: a dict with an identity, a call type and a
-- function. `main` is the call `node["fn"](inst, node, event_id, event_data)`, `call` the truth
-- value of `node["fn"](inst, node)` (None is false), and `reset_recursive` is `reset_recursive(inst, node)` of
-- se_runtime/lifecycle.py. The theorems about the operators hold for every list of handles, those of
-- functions written by users included.
use robot_person.Base.{ℕ, String, Bool, true, false}
use robot_person.SEngine.Codes.{Code}
use robot_person.SEngine.State.{EventData, Action}

pub data CallType : Type 0 where
  m_call o_call io_call p_call : CallType

pub record Handle : Type 0 where
  pub id : ℕ
  pub call_type : CallType
  pub main : String → EventData → Action Code
  pub call : Action Bool
  pub reset_recursive : Action (Unit {0})

unfoldable pub is_m_call : CallType → Bool
is_m_call m_call = true
is_m_call _ = false

unfoldable pub is_p_call : CallType → Bool
is_p_call p_call = true
is_p_call _ = false

unfoldable pub is_io_call : CallType → Bool
is_io_call io_call = true
is_io_call _ = false
