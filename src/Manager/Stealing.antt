-- ===== src/Manager/Stealing.antt =====
-- The loop of rebalance: what it leaves when it ends.
use libvegas.Base.{
  ℕ, zero, suc, ◌-◌, ◌≡◌, refl, ◌∙◌, subst, ◌||◌, List, [], ◌∷◌, ◌++◌, Option, none, some, String,
  nat_eq, string_eq, ◌==◌, nat_beq, inl, inr, Option-cases, Bool-cases,
}
use libvegas.Base.Run.{
  ◌>>=◌, Returns, returned, Returns-then, Returns-value, Safely, safely, endless, Safely-then,
  Safely-weaken, Safely-split, Returns-Safely,
}
use libvegas.Base.Int.{pos, dec, leb_ℤ}
use libvegas.Base.Map.{Map, lookup, insert, lookup_or}
use libvegas.Messages.{Shard}
use libvegas.Queue.Calls.{peek_lem, Peeked}
use libvegas.Queue.Update.{push_lem}
use libvegas.Manager.{
  ManagerService, WorkerInfo, WorkerAssignment, RangeOrder, set_info, priority_of_int,
}
use libvegas.Manager.Rebalance.{find_stealable, request_reassignment, rebalance_loop}
use libvegas.Manager.Sync.{
  IsAllocated, IsSynced, Frame-IsSynced, Frame-IsAllocated, allocated_info, standing-info,
  cell-IsAllocated,
}
use libvegas.Manager.Keeps.{Settled, Pushed-IsSynced, set_info-Frame}

-- The workers that shards are taken from have cells.
abbrev pub AreBacked : Map ℕ WorkerInfo → Map ℕ (List Shard) → Type 0
AreBacked infos [] = Unit {0}
AreBacked infos ((old, shards) ∷ rest) = IsAllocated infos old × AreBacked infos rest

pub weaken-AreBacked :
    (infos after : Map ℕ WorkerInfo) (offers : Map ℕ (List Shard))
    → ((w : ℕ) → IsAllocated infos w → IsAllocated after w)
    → AreBacked infos offers
    → AreBacked after offers
weaken-AreBacked infos after [] up h = tt
weaken-AreBacked infos after ((old, shards) ∷ rest) up (h, t) =
    (up old h, weaken-AreBacked infos after rest up t)

pub insert-AreBacked :
    (infos : Map ℕ WorkerInfo) (w : ℕ) (shards : List Shard) (offers : Map ℕ (List Shard))
    → IsAllocated infos w
    → AreBacked infos offers
    → AreBacked infos (insert w shards offers)
unfolding insert
insert-AreBacked infos w shards [] h t = (h, tt)
insert-AreBacked infos w shards ((old, others) ∷ rest) h (k, t) = elim (Bool-cases (old == w)) [
  | inl same ↦ rw same (h, t)
  | inr differ ↦ rw differ (k, insert-AreBacked infos w shards rest h t)
]

-- After a steal: settled, and every cell is there still.
abbrev pub Stolen : ManagerService → ManagerService → Type 0
Stolen m n =
    Settled m.workers m.closed n × ((u : ℕ) → IsAllocated m.infos u → IsAllocated n.infos u)

pub request_reassignment-Stolen :
    (clock w : ℕ) (i : WorkerInfo) (s : String) (a : WorkerAssignment) (m : ManagerService)
    → IsSynced m
    → lookup w m.infos ≡ some i
    → Returns (Stolen m) (request_reassignment clock w i (s, a) m)
unfolding request_reassignment set_info
request_reassignment-Stolen clock w i s a m v e =
    let j : WorkerInfo = record i {
      assignments =
          insert s (record a { reassignment_request = some (record { created_at = clock }) })
            i.assignments;
      active_shard_count = dec i.active_shard_count;
    } in
    let f = set_info-Frame m w i j e (refl, refl) in
    let here = cell-IsAllocated m.infos w i e in
    Returns-then (push_lem m.worker_shard_count w (priority_of_int j.active_shard_count) v.counts)
      λ q h. returned (
        record {
          synced =
              Pushed-IsSynced (set_info m w j) w (priority_of_int j.active_shard_count) q
                (Frame-IsSynced v f) (Frame-IsAllocated f w here) h;
          workers = refl;
          closed = refl;
        },
        Frame-IsAllocated f,
      )

-- A worker of a manager in step has a cell.
pub worker_cell :
    (m : ManagerService) (id : String) (w : ℕ)
    → IsSynced m
    → lookup id m.workers ≡ some w
    → (i : WorkerInfo) × (lookup w m.infos ≡ some i)
worker_cell m id w v here =
    let (t, o, s, p) = v.listed id w here in
    let (i, e, _, _) = standing-info m.infos w t o s in (i, e)

module _ (order : RangeOrder) where
  -- The loop's result against the manager before it.
  abbrev pub Looted : ManagerService → Map ℕ (List Shard) × ManagerService → Type 0
  Looted m (offers, n) = Stolen m n × AreBacked n.infos offers

  pub Stolen-refl : (m : ManagerService) → IsSynced m → Stolen m m
  Stolen-refl m v = (record { synced = v; workers = refl; closed = refl }, λ u h. h)

  pub Looted-after :
      (m n : ManagerService) (r : Map ℕ (List Shard) × ManagerService)
      → Stolen m n
      → Looted n r
      → Looted m r
  Looted-after m n (offers, o) (s, up) ((t, up'), backed) = (
    (
      record { synced = t.synced; workers = t.workers ∙ s.workers; closed = t.closed ∙ s.closed },
      λ u h. up' u (up u h),
    ),
    backed,
  )

  -- What a later round does.
  abbrev Continues : ℕ → ℕ → ℕ → String → Type 0
  Continues k clock ideal id =
      (target : ℕ) (offers : Map ℕ (List Shard)) (m : ManagerService)
      → IsSynced m
      → AreBacked m.infos offers
      → Safely (Looted m) (rebalance_loop order k clock ideal id target offers m)

  steal-Looted :
      (k clock ideal : ℕ) (id : String) (target : ℕ) (offers : Map ℕ (List Shard))
      (m : ManagerService) (w : ℕ) (i : WorkerInfo)
      → Continues k clock ideal id
      → IsSynced m
      → AreBacked m.infos offers
      → lookup w m.infos ≡ some i
      → (found : Option (String × WorkerAssignment))
      → Safely (Looted m) (elim found [
        | none ↦ rebalance_loop order k clock ideal id target offers m
        | some (s, a) ↦ request_reassignment clock w i (s, a) m >>= λ m'.
            rebalance_loop order k clock ideal id
              (target - 1)
              (insert w (lookup_or [] w offers ++ a.shard ∷ []) offers)
              m'
      ])
  steal-Looted k clock ideal id target offers m w i next v h cell none = next target offers m v h
  steal-Looted k clock ideal id target offers m w i next v h cell (some (s, a)) =
      Safely-then (Returns-Safely (request_reassignment-Stolen clock w i s a m v cell))
        λ n (settled, up).
          let taken = insert w (lookup_or [] w offers ++ a.shard ∷ []) offers in
          let backed =
            insert-AreBacked n.infos w _ offers (up w (cell-IsAllocated m.infos w i cell))
              (weaken-AreBacked m.infos n.infos offers up h) in
          Safely-weaken (next (target - 1) taken n settled.synced backed)
            λ r looted. (Looted-after m n r (settled, up) looted)

  pub rebalance_loop-Looted :
      (k clock ideal : ℕ) (id : String) (target : ℕ) (offers : Map ℕ (List Shard))
      (m : ManagerService)
      → IsSynced m
      → AreBacked m.infos offers
      → Safely (Looted m) (rebalance_loop order k clock ideal id target offers m)
  unfolding rebalance_loop
  rebalance_loop-Looted zero clock ideal id target offers m v h = endless
  rebalance_loop-Looted (suc k) clock ideal id target offers m v h =
      let kept : Looted m (offers, m) = (Stolen-refl m v, h) in
      let (busiest, e, shown) = Returns-value (peek_lem m.worker_shard_count v.counts) in
      elim (Option-cases busiest) [
        | inl nobody ↦
            rw (e, nobody) (Safely-split (nat_beq target 0) (λ _. safely kept) (λ _. safely kept))
        | inr (w, is_first) ↦
            let (p, there, least) = subst (Peeked m.worker_shard_count) is_first shown in
            let (i, cell) = allocated_info m.infos w (v.counted w p there) in
            rw (e, is_first)
              (rw cell (
                Safely-split (nat_beq target 0) (λ _. safely kept)
                  (λ _.
                    Safely-split (i.worker_id == id || leb_ℤ i.active_shard_count (pos ideal))
                      (λ _. safely kept)
                      (λ _.
                        steal-Looted k clock ideal id target offers m w i
                          (rebalance_loop-Looted k clock ideal id) v h cell
                          (find_stealable (order.assignments i.assignments))))))
      ]
