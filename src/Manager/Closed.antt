-- ===== src/Manager/Closed.antt =====
-- processClosedShards.
use libvegas.Base.{
  ℕ, zero, suc, Bool, true, not, ◌&&◌, List, [], ◌∷◌, ◌++◌, none, some, if◌then◌else◌, nat_eq,
  string_eq, ◌==◌,
}
use libvegas.Base.Run.{Run, ok, out_of_fuel, ◌>>=◌, or_panic, for_each}
use libvegas.Base.Map.{remove, insert, has}
use libvegas.Base.Int.{dec}
use libvegas.Messages.{Shard}
use libvegas.Queue
use libvegas.Manager.{
  ManagerService, CloseNotification, ShardDiscovery, info, set_info, priority_of_int, checkpoint_of,
}

-- The owner of a closed shard loses it, and the shard is live no more.
unfoldable pub drop_closed : CloseNotification → ManagerService → Run ManagerService
unfolding set_info
drop_closed n m = elim n.worker [
  | none ↦ ok m
  | some w ↦ do
    i ← info m w
    let i' = record i {
      assignments = remove n.shard_id i.assignments;
      active_shard_count = dec i.active_shard_count;
    }
    counts ← Queue.push m.worker_shard_count w (priority_of_int i'.active_shard_count)
    ok (record (set_info m w i') {
      live_shards = remove n.shard_id m.live_shards;
      worker_shard_count = counts;
    })
]

-- Every parent of the child is closed; a child without a first parent is a nil dereference.
unfoldable pub parents_closed : ManagerService → Shard → Run Bool
parents_closed m child = do
  parent ← or_panic child.parent_shard_id
  let adjacent : Bool = elim child.adjacent_parent_shard_id [
    | none ↦ true
    | some p ↦ checkpoint_of m p == "CLOSED"
  ]
  ok (checkpoint_of m parent == "CLOSED" && adjacent)

-- A child whose parents are closed joins the pool, or its own children are looked at in turn.
unfoldable pub open_child : Shard → ManagerService → ManagerService
open_child child m =
    let checkpoint = checkpoint_of m child.shard_id in
    if not (checkpoint == "CLOSED") && not (has child.shard_id m.live_shards)
    then record m {
      checkpoints =
          if checkpoint == "" then insert child.shard_id "LATEST" m.checkpoints else m.checkpoints;
      unassigned_shards = m.unassigned_shards ++ child ∷ [];
      live_shards = insert child.shard_id child m.live_shards;
    }
    else record m { closed = m.closed ++ record { shard_id = child.shard_id; worker = none } ∷ [] }

unfoldable pub process_child : Shard → ManagerService → Run ManagerService
unfolding parents_closed open_child
process_child child m = do
  ready ← parents_closed m child
  ok (if ready then open_child child m else m)

module _ (discovery : ShardDiscovery) where
  -- A notification whose shard has no children yet is kept for the next time, without its worker.
  unfoldable pub process_notification :
      CloseNotification
      → ManagerService
      → List CloseNotification
      → Run (ManagerService × List CloseNotification)
  unfolding drop_closed process_child for_each
  process_notification n m unresolved = do
    m ← drop_closed n m
    children ← discovery.get_children n.shard_id
    elim children [
      | [] ↦ ok (m, unresolved ++ record n { worker = none } ∷ [])
      | child ∷ rest ↦ for_each process_child (child ∷ rest) m >>= λ m'. ok (m', unresolved)
    ]

  unfoldable pub closed_loop : ℕ → ManagerService → List CloseNotification → Run ManagerService
  closed_loop zero m unresolved = out_of_fuel
  closed_loop (suc k) m unresolved = elim m.closed [
    | [] ↦ ok (record m { closed = unresolved })
    | n ∷ rest ↦
        process_notification n (record m { closed = rest }) unresolved >>= λ (m', unresolved').
        closed_loop k m' unresolved'
  ]

  unfoldable pub process_closed_shards : ℕ → ManagerService → Run ManagerService
  unfolding closed_loop
  process_closed_shards fuel m = closed_loop fuel m []
