-- ===== src/Manager/Rebalance.antt =====
-- rebalance: a worker below the even share is offered shards of those above it.
use libvegas.Base.{
  ℕ, zero, suc, ◌-◌, ◌/◌, ◌||◌, List, [], ◌∷◌, ◌++◌, Option, none, some, String, nat_beq,
  if◌then◌else◌, nat_eq, string_eq, ◌==◌, length,
}
use libvegas.Base.Run.{Run, ok, panic, out_of_fuel, ◌>>=◌}
use libvegas.Base.Map.{Map, insert, lookup_or}
use libvegas.Base.Int.{pos, dec, leb_ℤ, sub_to_zero}
use libvegas.Messages.{Shard}
use libvegas.Queue
use libvegas.Manager.{
  ManagerService, WorkerInfo, WorkerAssignment, RangeOrder, info, set_info, priority_of_int,
}

-- The first assignment without a reassignment request.
unfoldable pub find_stealable : Map String WorkerAssignment → Option (String × WorkerAssignment)
find_stealable [] = none
find_stealable ((s, a) ∷ rest) = elim a.reassignment_request [
  | none ↦ some (s, a)
  | some _ ↦ find_stealable rest
]

-- The assignment of `w` under `s` gets a request, and `w` counts it no longer.
unfoldable pub request_reassignment :
    ℕ → ℕ → WorkerInfo → String × WorkerAssignment → ManagerService → Run ManagerService
unfolding set_info
request_reassignment clock w i (s, a) m = do
  let a' = record a { reassignment_request = some (record { created_at = clock }) }
  let i' = record i {
    assignments = insert s a' i.assignments;
    active_shard_count = dec i.active_shard_count;
  }
  counts ← Queue.push m.worker_shard_count w (priority_of_int i'.active_shard_count)
  ok (record (set_info m w i') { worker_shard_count = counts })

module _ (order : RangeOrder) where
  -- The Go loop ends when `target` is 0 or at a `break`; where the busiest worker has nothing to
  -- steal it goes round again unchanged.
  unfoldable pub rebalance_loop :
      ℕ
      → ℕ
      → ℕ
      → String
      → ℕ
      → Map ℕ (List Shard)
      → ManagerService
      → Run (Map ℕ (List Shard) × ManagerService)
  unfolding find_stealable
  rebalance_loop zero clock ideal id target offers m = out_of_fuel
  rebalance_loop (suc k) clock ideal id target offers m = do
    busiest ← Queue.peek m.worker_shard_count
    let round : ℕ → Run (Map ℕ (List Shard) × ManagerService) = λ w. do
      i ← info m w
      let idle = rebalance_loop k clock ideal id target offers m
      let steal : String × WorkerAssignment → Run (Map ℕ (List Shard) × ManagerService) = λ (s, a).
          do
            m' ← request_reassignment clock w i (s, a) m
            rebalance_loop k clock ideal id (target - 1)
                (insert w (lookup_or [] w offers ++ a.shard ∷ []) offers) m'
      let go : Run (Map ℕ (List Shard) × ManagerService) =
          elim (find_stealable (order.assignments i.assignments)) [
            | none ↦ idle
            | some found ↦ steal found
          ]
      if i.worker_id == id || leb_ℤ i.active_shard_count (pos ideal) then ok (offers, m) else go
    let search_on : Run (Map ℕ (List Shard) × ManagerService) = elim busiest [
      | none ↦ ok (offers, m)
      | some w ↦ round w
    ]
    if nat_beq target 0 then ok (offers, m) else search_on

  unfoldable pub rebalance : ℕ → ℕ → ℕ → ℕ → ManagerService → Run ManagerService
  unfolding set_info
  rebalance fuel clock w now m = do
    i ← info m w
    ideal ←
        if nat_beq (length m.workers) 0 then panic else ok (length m.live_shards / length m.workers)
    let target = sub_to_zero ideal i.active_shard_count
    (offers, m') ← rebalance_loop fuel clock ideal i.worker_id target [] m
    i' ← info m' w
    ok (elim offers [
      | [] ↦ m'
      | first ∷ rest ↦ set_info m' w (record i' {
        reassignment_offer = some (record { shards = first ∷ rest; created_at = now });
      })
    ])
