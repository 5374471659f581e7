-- ===== src/Leader.antt =====
-- consumer/leader.go: the election loop around a manager. The etcd session and election are clients
-- of a library, and what they answer is an argument.
pub mod Terms
use libvegas.Base.{ℕ, Bool, List, [], ◌∷◌, if◌then◌else◌}
use libvegas.Base.Run.{Run, ok, fatal, ◌>>=◌}
use libvegas.Etcd.{Etcd}
use libvegas.Manager.{ManagerService, ShardDiscovery}
use libvegas.Manager.Service.{set_to_in_service, set_to_out_of_service}

-- One pass of the loop: no session, a campaign that fails, a win after which the context ends while
-- SetToInService reads, which then returns and changes nothing, or a win. A win comes with its revision,
-- the store and the discovery then, the requests that are served during the term, and whether the
-- term ends with the session; if not, it ends with the context.
pub data Round (K : Type 0) : Type 0 where
  no_session not_elected interrupted : Round K
  elected : ℕ → K → ShardDiscovery → (ManagerService → Run ManagerService) → Bool → Round K

module _ {K : Type 0} (etcd : Etcd K) where
  -- The loop waits in its campaign at the end of the list.
  unfoldable pub elect : List (Round K) → ManagerService → Run ManagerService
  unfolding set_to_out_of_service
  elect [] m = ok m
  elect (no_session ∷ rest) m = fatal
  elect (not_elected ∷ rest) m = ok m
  elect (interrupted ∷ rest) m = ok m
  elect (elected rev store discovery serve session_lost ∷ rest) m = do
    n ← set_to_in_service etcd discovery store rev m
    o ← serve n
    let again = elect rest (set_to_out_of_service o)
    if session_lost then again else ok o
