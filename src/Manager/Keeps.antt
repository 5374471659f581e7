-- ===== src/Manager/Keeps.antt =====
-- The small changes of state that the handlers are made of, against the invariant of the manager.
use libvegas.Base.{
  ℕ, ◌≡◌, refl, ◌∙◌, sym, subst, true, false, List, Option, none, some, String, nat_eq, string_eq,
  ◌==◌, inl, inr, Bool-cases,
}
use mathlib.Core.List.{Mem}
use libvegas.Base.Map.{Map, lookup, insert, beq_eq, ne_beq}
use libvegas.Messages.{Shard}
use libvegas.Queue.{PriorityQueue}
use libvegas.Queue.Valid.{priority_of}
use libvegas.Queue.Insert.{Pushed}
use libvegas.Manager.{ManagerService, WorkerInfo, CloseNotification, ReassignmentOffer, set_info}
use libvegas.Manager.Sync.{
  standing, IsAllocated, IsNoted, IsSynced, Frame, standing-set, standing-insert, weaken-IsNoted,
}

-- In step, with these workers and these notifications.
pub record Settled (before : Map String ℕ) (notes : List CloseNotification) (n : ManagerService)
    : Type 0 where
  pub synced : IsSynced n
  pub workers : n.workers ≡ before
  pub closed : n.closed ≡ notes

-- What is no part of the invariant.
pub pooled-IsSynced :
    (m : ManagerService) (checkpoints : Map String String) (unassigned : List Shard)
    (live : Map String Shard) (closed : List CloseNotification)
    → IsSynced m
    → IsNoted m.infos closed
    → IsSynced (record m {
      checkpoints = checkpoints;
      unassigned_shards = unassigned;
      live_shards = live;
      closed = closed;
    })
pooled-IsSynced m checkpoints unassigned live closed v noted = record {
  heartbeats = v.heartbeats;
  direction = v.direction;
  counts = v.counts;
  listed = v.listed;
  known = v.known;
  offers = v.offers;
  distinct = v.distinct;
  counted = v.counted;
  noted = noted;
  fresh = v.fresh;
}

-- The count of a worker that has a cell.
pub Pushed-IsSynced :
    (m : ManagerService) (w p : ℕ) (q : PriorityQueue ℕ)
    → IsSynced m
    → IsAllocated m.infos w
    → Pushed m.worker_shard_count w p q
    → IsSynced (record m { worker_shard_count = q })
Pushed-IsSynced m w p q v here h = record {
  heartbeats = v.heartbeats;
  direction = v.direction;
  counts = h.valid;
  listed = v.listed;
  known = v.known;
  offers = v.offers;
  distinct = v.distinct;
  counted = λ u b e. elim (Bool-cases (w == u)) [
    | inl same ↦ subst (IsAllocated m.infos) (beq_eq w u same) here
    | inr differ ↦
        let was : priority_of q u ≡ priority_of m.worker_shard_count u =
          h.holds u ∙ rw differ refl in
        v.counted u b (sym was ∙ e)
  ];
  noted = v.noted;
  fresh = v.fresh;
}

-- A cell that is written without its heartbeat and its offer.
pub set_info-Frame :
    (m : ManagerService) (w : ℕ) (i j : WorkerInfo)
    → lookup w m.infos ≡ some i
    → (j.last_heartbeat ≡ i.last_heartbeat) × (j.reassignment_offer ≡ i.reassignment_offer)
    → Frame m (set_info m w j)
unfolding set_info
set_info-Frame m w i j e same = record {
  cfg = refl;
  workers = refl;
  heartbeats = refl;
  counts = refl;
  closed = refl;
  next = refl;
  infos = λ v. standing-insert m.infos w i j v e same;
}

-- The workers that an offer names have cells.
abbrev pub IsBacked : Map ℕ WorkerInfo → Option ReassignmentOffer → Type 0
IsBacked infos none = Unit {0}
IsBacked infos (some o) =
    (old : ℕ) (shards : List Shard) → Mem (old, shards) o.shards → IsAllocated infos old

module _ (m : ManagerService) (w : ℕ) (i : WorkerInfo) (o : Option ReassignmentOffer)
    (v : IsSynced m) (cell : lookup w m.infos ≡ some i) (backed : IsBacked m.infos o) where
  abbrev offered : Map ℕ WorkerInfo
  offered = insert w (record i { reassignment_offer = o }) m.infos

  offered_same : (u : ℕ) → (w == u) ≡ true → standing offered u ≡ some (i.last_heartbeat, o)
  offered_same u h = standing-set m.infos w (record i { reassignment_offer = o }) u ∙ rw h refl

  offered_other : (u : ℕ) → (w == u) ≡ false → standing offered u ≡ standing m.infos u
  offered_other u h = standing-set m.infos w (record i { reassignment_offer = o }) u ∙ rw h refl

  offered_was : standing m.infos w ≡ some (i.last_heartbeat, i.reassignment_offer)
  offered_was = rw (cell, standing) refl

  offered-IsAllocated : (u : ℕ) → IsAllocated m.infos u → IsAllocated offered u
  offered-IsAllocated u h = elim (Bool-cases (w == u)) [
    | inl same ↦ λ e. cc (e, offered_same u same)
    | inr differ ↦ λ e. h (sym (offered_other u differ) ∙ e)
  ]

  pub offer-IsSynced : IsSynced (set_info m w (record i { reassignment_offer = o }))
  unfolding set_info
  offer-IsSynced = record {
    heartbeats = v.heartbeats;
    direction = v.direction;
    counts = v.counts;
    listed = λ id u h.
        let (t, p, s, b) = v.listed id u h in
        elim (Bool-cases (w == u)) [
          | inl same ↦
              let here : standing m.infos u ≡ some (i.last_heartbeat, i.reassignment_offer) =
                rw (← beq_eq w u same) offered_was in
              let beats : i.last_heartbeat ≡ t = cc (here, s) in
              (t, o, rw (← beats) (offered_same u same), b)
          | inr differ ↦ (t, p, offered_other u differ ∙ s, b)
        ];
    known = v.known;
    offers = λ u t p old shards s k. offered-IsAllocated old (elim (Bool-cases (w == u)) [
      | inl same ↦
          let named : o ≡ some p = cc (s, offered_same u same) in
          subst (IsBacked m.infos) named backed old shards k
      | inr differ ↦ v.offers u t p old shards (sym (offered_other u differ) ∙ s) k
    ]);
    distinct = v.distinct;
    counted = λ u p h. offered-IsAllocated u (v.counted u p h);
    noted = weaken-IsNoted m.infos offered m.closed offered-IsAllocated v.noted;
    fresh = λ u h.
        let gone = v.fresh u h in
        offered_other u (ne_beq w u λ e. cc (gone, offered_was, e)) ∙ gone;
  }
