-- ===== src/SEngine/Leaves/Oneshot.antt =====
-- s_engine/se_builtins/oneshot.py: the actions that fire once.
use robot_person.Base.{String, List, [], ◌∷◌, ◌++◌, ℤ, ◌+ℤ◌, insert}
use robot_person.SEngine.Values.{Value, int}
use robot_person.SEngine.State.{LogLine, logged, logged_key, EventData, Action, Env, modify, ◌>>=◌}
use robot_person.SEngine.Queue.{Priority, push_event}
use robot_person.SEngine.Leaves.Pred.{read_key, or_zero, set_key}

unfoldable pub write_log : LogLine → Action (Unit {0})
write_log line = modify (λ s. record s { log = s.log ++ line ∷ [] })

unfoldable pub log : String → Action (Unit {0})
log message = write_log (logged message)

unfoldable pub dict_log : String → String → Action (Unit {0})
dict_log message key = do v ← read_key key; write_log (logged_key message key v)

unfoldable pub dict_set : String → Value → Action (Unit {0})
dict_set key value = set_key key value

unfoldable pub dict_inc : String → ℤ → Action (Unit {0})
dict_inc key delta = do v ← read_key key; n ← or_zero v; set_key key (int (n +ℤ delta))

unfoldable pub queue_event : Env → String → Priority → EventData → Action (Unit {0})
queue_event env event_id priority event_data = push_event env event_id event_data priority

-- `dictionary.update(source)`: the entries of `source` in their order
unfoldable pub dict_update : List (String × Value) → List (String × Value) → List (String × Value)
dict_update [] d = d
dict_update ((k, v) ∷ source) d = dict_update source (insert k v d)

unfoldable pub dict_load : List (String × Value) → Action (Unit {0})
dict_load source = modify (λ s. record s { dictionary = dict_update source s.dictionary })
