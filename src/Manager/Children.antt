-- ===== src/Manager/Children.antt =====
-- processClosedShards: the children of one shard, on a lineage of shards that ends.
use libvegas.Base.{
  ℕ, ◌+◌, ◌≤◌, ◌≢◌, refl, subst, Bool, true, false, not, ◌&&◌, List, [], ◌∷◌, ◌++◌, none, String,
  arith, nat_eq, string_eq, ◌==◌, if◌then◌else◌, inl, inr, Bool-cases,
}
use libvegas.Base.Run.{for_each, Returns, returned, Returns-then}
use libvegas.Base.Map.{Map, has}
use libvegas.Messages.{Shard}
use libvegas.Manager.{ManagerService, CloseNotification, checkpoint_of}
use libvegas.Manager.Closed.{open_child, process_child}
use libvegas.Manager.Sync.{append-IsNoted}
use libvegas.Manager.Notes.{
  AreKnown, closed_weight, append-AreKnown, closed_weight-append, parents_closed-Returns,
}
use libvegas.Manager.Keeps.{Settled, pooled-IsSynced}

module _ (IsKnown : String → Type 0) (weight : String → ℕ) where
  -- The sum of the weights of the shards.
  abbrev pub weights : List Shard → ℕ
  weights [] = 0
  weights (s ∷ rest) = weight s.shard_id + weights rest

  -- A child of a known shard is known, and has a parent.
  abbrev pub AreChildren : List Shard → Type 0
  AreChildren [] = Unit {0}
  AreChildren (s ∷ rest) = (IsKnown s.shard_id × (s.parent_shard_id ≢ none)) × AreChildren rest

  -- After a part of the round: in step, with the same workers and known notifications, which weigh
  -- no more than `limit`.
  pub record Advanced (before : Map String ℕ) (limit : ℕ) (n : ManagerService) : Type 0 where
    pub settled : Settled before n.closed n
    pub known : AreKnown IsKnown n.closed
    pub light : closed_weight weight n.closed ≤ limit

  open_child-Advanced :
      (child : Shard) (m : ManagerService) (before : Map String ℕ) (limit : ℕ)
      → IsKnown child.shard_id
      → Advanced before limit m
      → Advanced before (limit + weight child.shard_id) (open_child child m)
  unfolding open_child
  open_child-Advanced child m before limit k a =
      let v = a.settled.synced in
      elim (Bool-cases (
        not (checkpoint_of m child.shard_id == "CLOSED")
        && not (has child.shard_id m.live_shards))) [
          | inl fresh ↦
              rw (fresh, open_child)
                (record {
                  settled = record {
                    synced = pooled-IsSynced m _ _ _ m.closed v v.noted;
                    workers = a.settled.workers;
                    closed = refl;
                  };
                  known = a.known;
                  light = omega (arith, a.light);
                })
          | inr old ↦
              let n : CloseNotification = record { shard_id = child.shard_id; worker = none } in
              rw (old, open_child)
                (record {
                  settled = record {
                    synced =
                        pooled-IsSynced m m.checkpoints m.unassigned_shards m.live_shards
                          (m.closed ++ n ∷ []) v
                          (append-IsNoted m.infos m.closed n v.noted λ w e. absurd (cc e));
                    workers = a.settled.workers;
                    closed = refl;
                  };
                  known = append-AreKnown IsKnown m.closed n a.known k;
                  light = omega (arith, a.light, closed_weight-append weight m.closed n);
                })
        ]

  ready-Advanced :
      (child : Shard) (m : ManagerService) (before : Map String ℕ) (limit : ℕ)
      → IsKnown child.shard_id
      → Advanced before limit m
      → (ready : Bool)
      → Advanced before (limit + weight child.shard_id) (if ready then open_child child m else m)
  ready-Advanced child m before limit k a true = open_child-Advanced child m before limit k a
  ready-Advanced child m before limit k a false = record {
    settled = a.settled;
    known = a.known;
    light = omega (arith, a.light);
  }

  process_child-Advanced :
      (child : Shard) (m : ManagerService) (before : Map String ℕ) (limit : ℕ)
      → IsKnown child.shard_id
      → child.parent_shard_id ≢ none
      → Advanced before limit m
      → Returns (Advanced before (limit + weight child.shard_id)) (process_child child m)
  unfolding process_child
  process_child-Advanced child m before limit k has_parent a =
      Returns-then (parents_closed-Returns m child has_parent)
        λ ready _. returned (ready-Advanced child m before limit k a ready)

  pub for_each-Advanced :
      (children : List Shard) (m : ManagerService) (before : Map String ℕ) (limit : ℕ)
      → AreChildren children
      → Advanced before limit m
      → Returns (Advanced before (limit + weights children)) (for_each process_child children m)
  unfolding for_each
  for_each-Advanced [] m before limit h a =
      returned (subst (λ l. Advanced before l m) (omega arith) a)
  for_each-Advanced (child ∷ rest) m before limit ((k, parent), h) a =
      Returns-then (process_child-Advanced child m before limit k parent a) λ n b.
        subst (λ l. Returns (Advanced before l) (for_each process_child rest n)) (omega arith)
          (for_each-Advanced rest n before (limit + weight child.shard_id) h b)
