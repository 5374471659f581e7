-- ===== src/Config/Embedded.antt =====
-- consumer/etcd_server.go: the life of the embedded server. When it is ready and when the context
-- ends are arguments.
use libvegas.Base.{List, [], ◌∷◌}

-- How StartEtcd and the wait for it end: with an error, or with the server ready, with the time out,
-- or with the context ended before.
pub data Boot : Type 0 where
  not_started became_ready too_slow cancelled : Boot

-- Whether the server has stopped in time.
pub data Shutdown : Type 0 where
  stopped slow_to_stop : Shutdown

-- What the goroutine of Start does, in order. The last is `defer close(s.done)`.
pub data Act : Type 0 where
  opened closed waited done : Act

-- Once it runs, the context ends, and the server is closed.
unfoldable pub run_server : Boot → Shutdown → List Act
run_server not_started s = done ∷ []
run_server cancelled s = opened ∷ done ∷ []
run_server became_ready s = opened ∷ closed ∷ waited ∷ done ∷ []
run_server too_slow s = opened ∷ closed ∷ waited ∷ done ∷ []
