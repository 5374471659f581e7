-- ===== src/Leader/Terms.antt =====
-- The election loop: a node that waits is out of service, and one that serves does so under the
-- revision of its election.
use libvegas.Base.{ℕ, ◌≡◌, refl, true, false, List, [], ◌∷◌, Option, none, some, String}
use libvegas.Base.Run.{Run, ok, Returns, returned, Returns-then}
use libvegas.Messages.{Shard}
use libvegas.Etcd.{Etcd}
use libvegas.Manager.{ManagerService, ShardDiscovery}
use libvegas.Manager.Sync.{IsSynced}
use libvegas.Manager.Service.{set_to_out_of_service}
use libvegas.Manager.Takeover.{TakenOver, set_to_in_service_lem, set_to_out_of_service-IsSynced}
use libvegas.Leader.{Round, no_session, not_elected, interrupted, elected, elect}

-- The revision of the term that the context ended, if it was not the campaign that ended.
abbrev pub last_term : {K : Type 0} → List (Round K) → Option ℕ
last_term [] = none
last_term (no_session ∷ rest) = none
last_term (not_elected ∷ rest) = none
last_term (interrupted ∷ rest) = none
last_term (elected rev store discovery serve true ∷ rest) = last_term rest
last_term (elected rev store discovery serve false ∷ rest) = some rev

module _ {K : Type 0} (etcd : Etcd K) where
  -- A term whose store can be read and whose shards are known, on whatever manager is in step; the
  -- requests it serves keep the manager in step and under its term.
  pub record IsSound (rev : ℕ) (store : K) (discovery : ShardDiscovery)
      (serve : ManagerService → Run ManagerService) : Type 0 where
    pub found : String → Option String
    pub reads : (key : String) → etcd.get key store ≡ some (found key)
    pub all : List Shard
    pub roots : List Shard
    pub lists : discovery.get_all ≡ ok all
    pub tops : discovery.get_roots ≡ ok roots
    pub serves :
        (n : ManagerService)
        → TakenOver found all roots rev n
        → Returns (λ o. IsSynced o × (o.term ≡ rev)) (serve n)

  abbrev pub AreSound : List (Round K) → Type 0
  AreSound [] = Unit {0}
  AreSound (no_session ∷ rest) = ⊥
  AreSound (not_elected ∷ rest) = Unit {0}
  AreSound (interrupted ∷ rest) = Unit {0}
  AreSound (elected rev store discovery serve session_lost ∷ rest) =
      IsSound rev store discovery serve × AreSound rest

  -- Out of service while it waits; or still under the term that the context ended.
  abbrev pub Standing : Option ℕ → ManagerService → Type 0
  Standing none n = IsSynced n × (n.in_service ≡ false)
  Standing (some rev) n = IsSynced n × (n.term ≡ rev)

  -- From a manager in step and out of service, with sessions that can be made, stores and
  -- discoveries that answer, and requests that keep a manager in step and under its term, the
  -- election loop leaves a manager in step that is out of service while the node waits or after
  -- its campaign failed or the context ended while it took office, and that has the revision of
  -- the last election as its term when the context ended that term.
  pub elect_lem :
      (rounds : List (Round K)) (m : ManagerService)
      → AreSound rounds
      → IsSynced m
      → m.in_service ≡ false
      → Returns (Standing (last_term rounds)) (elect etcd rounds m)
  unfolding elect set_to_out_of_service
  elect_lem [] m sound v away = returned (v, away)
  elect_lem (no_session ∷ rest) m sound v away = absurd sound
  elect_lem (not_elected ∷ rest) m sound v away = returned (v, away)
  elect_lem (interrupted ∷ rest) m sound v away = returned (v, away)
  elect_lem (elected rev store discovery serve true ∷ rest) m (h, sound) v away =
      Returns-then
        (set_to_in_service_lem etcd store h.found h.reads discovery h.all h.roots rev m v h.lists
          h.tops)
        λ n t. Returns-then (h.serves n t) λ o (synced, _).
          elect_lem rest (set_to_out_of_service o) sound (set_to_out_of_service-IsSynced o synced)
            refl
  elect_lem (elected rev store discovery serve false ∷ rest) m (h, sound) v away =
      Returns-then
        (set_to_in_service_lem etcd store h.found h.reads discovery h.all h.roots rev m v h.lists
          h.tops)
        λ n t. Returns-then (h.serves n t) λ o kept. returned kept
