-- ===== src/Manager/Notes.antt =====
-- processClosedShards: its notifications, and what it does to the manager before it looks at the children.
use libvegas.Base.{
  ℕ, ◌+◌, ◌≡◌, ◌≢◌, refl, List, [], ◌∷◌, ◌++◌, none, some, String, arith, nat_eq, string_eq, inl,
  inr, Option-cases,
}
use libvegas.Base.Run.{Returns, returned, Returns-then}
use libvegas.Base.Map.{Map, remove}
use libvegas.Base.Int.{dec}
use libvegas.Messages.{Shard}
use libvegas.Queue.Update.{push_lem}
use libvegas.Manager.{ManagerService, WorkerInfo, CloseNotification, set_info}
use libvegas.Manager.Closed.{drop_closed, parents_closed}
use libvegas.Manager.Sync.{
  IsSynced, IsNoted, IsAllocated, allocated_info, Frame-IsSynced, Frame-IsAllocated,
}
use libvegas.Manager.Keeps.{Settled, pooled-IsSynced, Pushed-IsSynced, set_info-Frame}

abbrev pub AreKnown : (String → Type 0) → List CloseNotification → Type 0
AreKnown IsKnown [] = Unit {0}
AreKnown IsKnown (n ∷ rest) = IsKnown n.shard_id × AreKnown IsKnown rest

abbrev pub closed_weight : (String → ℕ) → List CloseNotification → ℕ
closed_weight weight [] = 0
closed_weight weight (n ∷ rest) = weight n.shard_id + closed_weight weight rest

pub append-AreKnown :
    (IsKnown : String → Type 0)
    → (closed : List CloseNotification) (n : CloseNotification) → AreKnown IsKnown closed
    → IsKnown n.shard_id
    → AreKnown IsKnown (closed ++ n ∷ [])
append-AreKnown IsKnown [] n h k = (k, tt)
append-AreKnown IsKnown (m ∷ rest) n (h, t) k = (h, append-AreKnown IsKnown rest n t k)

pub closed_weight-append :
    (weight : String → ℕ)
    → (closed : List CloseNotification) (n : CloseNotification)
    → closed_weight weight (closed ++ n ∷ []) ≡ closed_weight weight closed + weight n.shard_id
closed_weight-append weight [] n = omega arith
closed_weight-append weight (m ∷ rest) n = omega (arith, closed_weight-append weight rest n)

pub parents_closed-Returns :
    (m : ManagerService) (child : Shard)
    → child.parent_shard_id ≢ none
    → Returns (λ b. Unit {0}) (parents_closed m child)
unfolding parents_closed
parents_closed-Returns m child has_parent = elim (Option-cases child.parent_shard_id) [
  | inl orphan ↦ absurd (has_parent orphan)
  | inr (parent, e) ↦ rw (e, parents_closed) (returned tt)
]

-- The first notification is taken off the list, and its owner loses the shard.
pub drop_closed-Settled :
    (n : CloseNotification) (m : ManagerService)
    → IsSynced m
    → ((w : ℕ) → n.worker ≡ some w → IsAllocated m.infos w)
    → Returns (λ m'. Settled m.workers m.closed m') (drop_closed n m)
unfolding drop_closed set_info
drop_closed-Settled n m v owner = elim (Option-cases n.worker) [
  | inl nobody ↦
      rw (nobody, drop_closed) (returned (record { synced = v; workers = refl; closed = refl }))
  | inr (w, e) ↦
      let (i, cell) = allocated_info m.infos w (owner w e) in
      rw (e, drop_closed)
        (rw cell (
          Returns-then (push_lem m.worker_shard_count w _ v.counts) λ q h.
            let j : WorkerInfo = record i {
              assignments = remove n.shard_id i.assignments;
              active_shard_count = dec i.active_shard_count;
            } in
            let f = set_info-Frame m w i j cell (refl, refl) in
            let counted =
              Pushed-IsSynced (set_info m w j) w _ q (Frame-IsSynced v f)
                (Frame-IsAllocated f w (owner w e)) h in
            returned (record {
              synced =
                  pooled-IsSynced _ m.checkpoints m.unassigned_shards
                    (remove n.shard_id m.live_shards) m.closed counted counted.noted;
              workers = refl;
              closed = refl;
            })))
]

-- The notifications that are put off name no worker.
abbrev pub AreLeft : (IsKnown : String → Type 0) → List CloseNotification → Type 0
AreLeft IsKnown [] = Unit {0}
AreLeft IsKnown (n ∷ rest) = (IsKnown n.shard_id × (n.worker ≡ none)) × AreLeft IsKnown rest

pub append-AreLeft :
    (IsKnown : String → Type 0)
    → (left : List CloseNotification) (n : CloseNotification) → AreLeft IsKnown left
    → IsKnown n.shard_id
    → n.worker ≡ none
    → AreLeft IsKnown (left ++ n ∷ [])
append-AreLeft IsKnown [] n h k e = ((k, e), tt)
append-AreLeft IsKnown (m ∷ rest) n (h, t) k e = (h, append-AreLeft IsKnown rest n t k e)

pub left-AreKnown :
    (IsKnown : String → Type 0)
    → (left : List CloseNotification) → AreLeft IsKnown left
    → AreKnown IsKnown left
left-AreKnown IsKnown [] h = tt
left-AreKnown IsKnown (n ∷ rest) ((k, e), t) = (k, left-AreKnown IsKnown rest t)

pub left-IsNoted :
    (IsKnown : String → Type 0)
    → (infos : Map ℕ WorkerInfo) (left : List CloseNotification) → AreLeft IsKnown left
    → IsNoted infos left
left-IsNoted IsKnown infos [] h = tt
left-IsNoted IsKnown infos (n ∷ rest) ((k, e), t) =
    (λ w h. absurd (cc (e, h)), left-IsNoted IsKnown infos rest t)
