-- ===== src/Manager/Lineage.antt =====
-- processClosedShards on a lineage of shards that ends.
use libvegas.Base.{
  ℕ, zero, suc, ◌+◌, ◌<◌, ◌≡◌, refl, ◌∙◌, subst, List, [], ◌∷◌, ◌++◌, none, some, String, arith,
  nat_eq, string_eq,
}
use libvegas.Base.Run.{ok, ◌>>=◌, for_each, Returns, returned, Returns-then, Returns-weaken}
use libvegas.Base.Map.{Map}
use libvegas.Messages.{Shard}
use libvegas.Manager.{ManagerService, CloseNotification, ShardDiscovery}
use libvegas.Manager.Closed.{
  process_child, process_notification, closed_loop, process_closed_shards,
}
use libvegas.Manager.Sync.{IsSynced, IsNoted, IsAllocated}
use libvegas.Manager.Notes.{
  AreKnown, closed_weight, drop_closed-Settled, AreLeft, append-AreLeft, left-AreKnown,
  left-IsNoted,
}
use libvegas.Manager.Keeps.{Settled, pooled-IsSynced}
use libvegas.Manager.Children.{weights, AreChildren, Advanced, for_each-Advanced}

module _ (discovery : ShardDiscovery) (IsKnown : String → Type 0) (weight : String → ℕ) where
  -- Discovery answers for the known shards, and a shard outweighs its children together.
  abbrev pub IsLineage : Type 0
  IsLineage =
      (s : String)
      → IsKnown s
      → Returns
          (λ children.
            AreChildren IsKnown weight children × (weights IsKnown weight children < weight s))
          (discovery.get_children s)

  -- What follows the look at the children.
  abbrev Processed : Map String ℕ → ℕ → ManagerService × List CloseNotification → Type 0
  Processed before limit (m, left) = Advanced IsKnown weight before limit m × AreLeft IsKnown left

  children-Processed :
      (n : CloseNotification) (before : Map String ℕ) (limit : ℕ) (left : List CloseNotification)
      (m : ManagerService)
      → IsKnown n.shard_id
      → AreLeft IsKnown left
      → Advanced IsKnown weight before limit m
      → (children : List Shard) → AreChildren IsKnown weight children
      → weights IsKnown weight children < weight n.shard_id
      → Returns
          (λ r. (l : ℕ) × (l < limit + weight n.shard_id) × Processed before l r)
          (elim children [
            | [] ↦ ok (m, left ++ record n { worker = none } ∷ [])
            | child ∷ rest ↦ for_each process_child (child ∷ rest) m >>= λ m'. ok (m', left)
          ])
  children-Processed n before limit left m k h a [] are light =
      returned
        (limit, omega arith, (a, append-AreLeft IsKnown left (record n { worker = none }) h k refl))
  children-Processed n before limit left m k h a (child ∷ rest) are light =
      Returns-then (for_each-Advanced IsKnown weight (child ∷ rest) m before limit are a)
        λ m' b. returned (limit + weights IsKnown weight (child ∷ rest), omega arith, (b, h))

  process_notification-Processed :
      IsLineage
      → (n : CloseNotification) (m : ManagerService) (left : List CloseNotification) → IsSynced m
      → ((w : ℕ) → n.worker ≡ some w → IsAllocated m.infos w)
      → IsKnown n.shard_id
      → AreKnown IsKnown m.closed
      → AreLeft IsKnown left
      → Returns
          (λ r.
            (limit : ℕ) × (limit < closed_weight weight m.closed + weight n.shard_id)
            × Processed m.workers limit r)
          (process_notification discovery n m left)
  unfolding process_notification
  process_notification-Processed lineage n m left v owner known all_known h =
      Returns-then (drop_closed-Settled n m v owner) λ m' settled.
        Returns-then (lineage n.shard_id known) λ children (are, light).
          children-Processed n m.workers (closed_weight weight m.closed) left m' known h
            (record {
              settled = record {
                synced = settled.synced;
                workers = settled.workers;
                closed = refl;
              };
              known = rw settled.closed all_known;
              light = rw settled.closed (omega arith);
            })
            children are light

  -- One round of the loop, given what the later ones do.
  round-Settled :
      IsLineage
      → (k : ℕ) (m : ManagerService) (left : List CloseNotification)
      → ((n : ManagerService) (kept : List CloseNotification)
          → IsSynced n
          → AreKnown IsKnown n.closed
          → AreLeft IsKnown kept
          → closed_weight weight n.closed < k
          → Returns
              (λ o. Settled n.workers o.closed o × AreKnown IsKnown o.closed)
              (closed_loop discovery k n kept))
      → IsSynced m
      → AreLeft IsKnown left
      → (closed : List CloseNotification) → m.closed ≡ closed
      → AreKnown IsKnown closed
      → closed_weight weight closed < suc k
      → Returns
          (λ o. Settled m.workers o.closed o × AreKnown IsKnown o.closed)
          (elim closed [
            | [] ↦ ok (record m { closed = left })
            | n ∷ rest ↦
                process_notification discovery n (record m { closed = rest }) left
                >>= λ (m', left'). closed_loop discovery k m' left'
          ])
  round-Settled lineage k m left next v h [] e known enough = returned (
    record {
      synced =
          pooled-IsSynced m m.checkpoints m.unassigned_shards m.live_shards left v
            (left-IsNoted IsKnown m.infos left h);
      workers = refl;
      closed = refl;
    },
    left-AreKnown IsKnown left h,
  )
  round-Settled lineage k m left next v h (n ∷ rest) e (known, all_known) enough =
      let (owner, noted) = subst (IsNoted m.infos) e v.noted in
      let v' = pooled-IsSynced m m.checkpoints m.unassigned_shards m.live_shards rest v noted in
      Returns-then
        (process_notification-Processed lineage n (record m { closed = rest }) left v' owner known
          all_known h)
        λ (m', left') (limit, less, (a, h')).
          Returns-weaken (next m' left' a.settled.synced a.known h' (omega (arith, a.light)))
            λ o (s, t). (
              record { synced = s.synced; workers = s.workers ∙ a.settled.workers; closed = refl },
              t,
            )

  closed_loop-Settled :
      IsLineage
      → (k : ℕ) (m : ManagerService) (left : List CloseNotification) → IsSynced m
      → AreKnown IsKnown m.closed
      → AreLeft IsKnown left
      → closed_weight weight m.closed < k
      → Returns
          (λ n. Settled m.workers n.closed n × AreKnown IsKnown n.closed)
          (closed_loop discovery k m left)
  unfolding closed_loop
  closed_loop-Settled lineage zero m left v known h enough = absurd (omega arith)
  closed_loop-Settled lineage (suc k) m left v known h enough =
      round-Settled lineage k m left (closed_loop-Settled lineage k) v h m.closed refl known enough

  -- On a manager in step whose notifications are of shards of a lineage in which a shard outweighs
  -- its children together, and with more fuel than the notifications weigh, processClosedShards
  -- returns a manager in step with the same workers, whose notifications are of shards of the
  -- lineage.
  pub process_closed_shards_lem :
      IsLineage
      → (fuel : ℕ) (m : ManagerService) → IsSynced m
      → AreKnown IsKnown m.closed
      → closed_weight weight m.closed < fuel
      → Returns
          (λ n. Settled m.workers n.closed n × AreKnown IsKnown n.closed)
          (process_closed_shards discovery fuel m)
  unfolding process_closed_shards
  process_closed_shards_lem lineage fuel m v known enough =
      closed_loop-Settled lineage fuel m [] v known tt enough
