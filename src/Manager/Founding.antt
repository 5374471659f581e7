-- ===== src/Manager/Founding.antt =====
-- What a manager holds stays within the lineage: checkpoints and the taking of office.
use libvegas.Base.{
  ℕ, ◌≤◌, arith, ◌≡◌, Bool, true, false, List, [], ◌∷◌, ◌++◌, Option, none, some, String, nat_eq,
  string_eq, ◌==◌, if◌then◌else◌, subst, inl, inr, Bool-cases,
}
use libvegas.Base.Run.{for_each}
use libvegas.Base.Partial.{Only, only, any-Only, Only-then}
use libvegas.Base.Map.{Map, lookup, lookup_or, beq_eq}
use libvegas.Messages.{Shard, CheckpointRequest}
use libvegas.Etcd.{Etcd}
use libvegas.Manager.{ManagerService, WorkerInfo, WorkerAssignment, ShardDiscovery}
use libvegas.Manager.Notes.{AreKnown, append-AreKnown}
use libvegas.Manager.Numbers.{weaken-AreNumbered}
use libvegas.Manager.Held.{next_id, IsKnown, ArePooled, AreHeld, IsOurs, append-ArePooled}
use libvegas.Manager.Checkpoint.{record_owned}
use libvegas.Manager.Ownership.{Owned}
use libvegas.Manager.Service.{Roots, sort_root, sort_roots, set_to_in_service, load_checkpoint}

module _ (known : String → Bool) where
  lookup-AreHeld :
      (s : String) (a : WorkerAssignment) (m : Map String WorkerAssignment)
      → AreHeld known m
      → lookup s m ≡ some a
      → IsKnown known s
  unfolding lookup
  lookup-AreHeld s a [] h e = absurd (cc e)
  lookup-AreHeld s a ((j, b) ∷ rest) ((k, _), t) e = elim (Bool-cases (j == s)) [
    | inl same ↦ subst (IsKnown known) (beq_eq j s same) k
    | inr differ ↦ lookup-AreHeld s a rest t (rw differ at e)
  ]

  -- A worker checkpoints shards that it holds.
  pub record_owned-IsOurs :
      (request : CheckpointRequest) (m : ManagerService)
      (owned : Option (ℕ × WorkerInfo × WorkerAssignment))
      → Owned m request owned
      → IsOurs known m
      → IsOurs known (record_owned request m owned).1
  unfolding record_owned
  record_owned-IsOurs request m none h o = o
  record_owned-IsOurs request m (some (w, i, a)) (_, (here, cell, held, same)) o = record {
    cells = o.cells;
    pool = o.pool;
    closed = noted (request.sequence_number == "CLOSED");
    numbers = o.numbers;
  }
    where
      noted :
          (b : Bool)
          → AreKnown (IsKnown known) (
              if b
              then m.closed ++ record { shard_id = request.shard_id; worker = some w } ∷ []
              else m.closed)
      noted true =
          append-AreKnown (IsKnown known) m.closed _ o.closed
            (lookup-AreHeld request.shard_id a i.assignments (o.cells w i cell).0 held)
      noted false = o.closed

  -- What is gathered of known roots.
  abbrev Gathered : Roots → Type 0
  Gathered r = ArePooled known r.unassigned × AreKnown (IsKnown known) r.closed

  sort_root-Gathered :
      (checkpoints : Map String String) (root : Shard) (r : Roots)
      → IsKnown known root.shard_id
      → Gathered r
      → Gathered (sort_root checkpoints root r)
  unfolding sort_root
  sort_root-Gathered checkpoints root r k (h, t) =
      elim (Bool-cases (lookup_or "" root.shard_id checkpoints == "CLOSED")) [
        | inl ended ↦ rw (ended, sort_root) (h, append-AreKnown (IsKnown known) r.closed _ t k)
        | inr going ↦ rw (going, sort_root) (append-ArePooled known r.unassigned root h k, t)
      ]

  sort_roots-Gathered :
      (checkpoints : Map String String) (roots : List Shard) (r : Roots)
      → ArePooled known roots
      → Gathered r
      → Gathered (sort_roots checkpoints roots r)
  unfolding sort_roots
  sort_roots-Gathered checkpoints [] r h g = g
  sort_roots-Gathered checkpoints (root ∷ rest) r (k, h) g =
      sort_roots-Gathered checkpoints rest (sort_root checkpoints root r) h
        (sort_root-Gathered checkpoints root r k g)

  pub set_to_in_service-IsOurs :
      {K : Type 0} (etcd : Etcd K) (discovery : ShardDiscovery) (s : K) (term : ℕ)
      (m : ManagerService)
      → m.term ≤ term
      → Only (ArePooled known) discovery.get_roots
      → IsOurs known m
      → Only (IsOurs known) (set_to_in_service etcd discovery s term m)
  unfolding set_to_in_service
  set_to_in_service-IsOurs etcd discovery s term m later top o =
      Only-then (any-Only discovery.get_all) λ all _.
        Only-then (any-Only (for_each (load_checkpoint etcd s) all [])) λ checkpoints _.
          Only-then top λ roots h.
            let (pool, closed) = sort_roots-Gathered checkpoints roots _ h (tt, tt) in
            only (record {
              cells = o.cells;
              pool = pool;
              closed = closed;
              numbers = weaken-AreNumbered m.infos (next_id m) _ (omega arith) o.numbers;
            })
