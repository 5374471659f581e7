-- ===== src/Manager/Sync.antt =====
-- The invariant that ties the queues of a manager to its workers, and what leaves it alone.
use libvegas.Base.{
  ℕ, ◌≤◌, ◌≡◌, ◌≢◌, refl, ◌∙◌, sym, ap, subst, false, List, [], ◌∷◌, ◌++◌, Option, none, some,
  String, if◌then◌else◌, arith, nat_eq, string_eq, ◌==◌, inl, inr, Option-cases,
}
use mathlib.Core.List.{Mem}
use libvegas.Base.Map.{Map, lookup, insert, lookup-insert}
use libvegas.Base.Int.{pos}
use libvegas.Messages.{Shard}
use libvegas.Queue.Valid.{IsValid, priority_of}
use libvegas.Manager.{
  ManagerService, WorkerInfo, CloseNotification, ReassignmentOffer, priority_of_int, unix_milli,
}

-- The priority of a heartbeat.
abbrev pub beat : ℕ → ℕ
beat t = priority_of_int (pos (unix_milli t))

-- What the release of workers leaves alone of a cell: the heartbeat and the offer.
abbrev pub standing : Map ℕ WorkerInfo → ℕ → Option (ℕ × Option ReassignmentOffer)
standing m w = elim (lookup w m) [
  | none ↦ none
  | some i ↦ some (i.last_heartbeat, i.reassignment_offer)
]

abbrev pub IsAllocated : Map ℕ WorkerInfo → ℕ → Type 0
IsAllocated m w = standing m w ≢ none

-- The worker of each notification has a cell.
abbrev pub IsNoted : Map ℕ WorkerInfo → List CloseNotification → Type 0
IsNoted infos [] = Unit {0}
IsNoted infos (n ∷ rest) = ((w : ℕ) → n.worker ≡ some w → IsAllocated infos w) × IsNoted infos rest

pub weaken-IsNoted :
    (infos after : Map ℕ WorkerInfo) (closed : List CloseNotification)
    → ((w : ℕ) → IsAllocated infos w → IsAllocated after w)
    → IsNoted infos closed
    → IsNoted after closed
weaken-IsNoted infos after [] up h = tt
weaken-IsNoted infos after (n ∷ rest) up (h, t) =
    (λ w e. up w (h w e), weaken-IsNoted infos after rest up t)

pub append-IsNoted :
    (infos : Map ℕ WorkerInfo) (closed : List CloseNotification) (n : CloseNotification)
    → IsNoted infos closed
    → ((w : ℕ) → n.worker ≡ some w → IsAllocated infos w)
    → IsNoted infos (closed ++ n ∷ [])
append-IsNoted infos [] n h k = (k, tt)
append-IsNoted infos (m ∷ rest) n (h, t) k = (h, append-IsNoted infos rest n t k)

-- Every worker has a cell and stands in the heartbeat queue under its heartbeat, and nothing else
-- does; the workers that are counted, named by an offer or by a notification have cells.
pub record IsSynced (m : ManagerService) : Type 0 where
  pub heartbeats : IsValid m.worker_heartbeats
  pub direction : m.worker_heartbeats.pq.reversed ≡ false
  pub counts : IsValid m.worker_shard_count
  pub listed :
      (id : String) (w : ℕ)
      → lookup id m.workers ≡ some w
      → (t : ℕ) × (o : Option ReassignmentOffer) × (standing m.infos w ≡ some (t, o))
        × (priority_of m.worker_heartbeats id ≡ some (beat t))
  pub known :
      (id : String) (p : ℕ)
      → priority_of m.worker_heartbeats id ≡ some p
      → (w : ℕ) × (lookup id m.workers ≡ some w)
  pub offers :
      (w t : ℕ) (o : ReassignmentOffer) (old : ℕ) (shards : List Shard)
      → standing m.infos w ≡ some (t, some o)
      → Mem (old, shards) o.shards
      → IsAllocated m.infos old
  pub distinct :
      (id j : String) (w : ℕ) → lookup id m.workers ≡ some w → lookup j m.workers ≡ some w → id ≡ j
  pub counted : (w p : ℕ) → priority_of m.worker_shard_count w ≡ some p → IsAllocated m.infos w
  pub noted : IsNoted m.infos m.closed
  pub fresh : (w : ℕ) → m.next_info ≤ w → standing m.infos w ≡ none

-- `n` differs from `m` in the pool, and in the assignments of workers.
pub record Frame (m n : ManagerService) : Type 0 where
  pub cfg : n.cfg ≡ m.cfg
  pub workers : n.workers ≡ m.workers
  pub heartbeats : n.worker_heartbeats ≡ m.worker_heartbeats
  pub counts : n.worker_shard_count ≡ m.worker_shard_count
  pub closed : n.closed ≡ m.closed
  pub next : n.next_info ≡ m.next_info
  pub infos : (w : ℕ) → standing n.infos w ≡ standing m.infos w

pub Frame-refl : (m : ManagerService) → Frame m m
Frame-refl m = record {
  cfg = refl;
  workers = refl;
  heartbeats = refl;
  counts = refl;
  closed = refl;
  next = refl;
  infos = λ w. refl;
}

pub Frame-trans : {m n o : ManagerService} → Frame m n → Frame n o → Frame m o
Frame-trans f g = record {
  cfg = g.cfg ∙ f.cfg;
  workers = g.workers ∙ f.workers;
  heartbeats = g.heartbeats ∙ f.heartbeats;
  counts = g.counts ∙ f.counts;
  closed = g.closed ∙ f.closed;
  next = g.next ∙ f.next;
  infos = λ w. g.infos w ∙ f.infos w;
}

-- A cell that has a standing.
pub standing-info :
    (m : Map ℕ WorkerInfo) (w t : ℕ) (o : Option ReassignmentOffer)
    → standing m w ≡ some (t, o)
    → (i : WorkerInfo) × (lookup w m ≡ some i) × (i.last_heartbeat ≡ t) × (i.reassignment_offer ≡ o)
standing-info m w t o h = elim (Option-cases (lookup w m)) [
  | inl e ↦ absurd (ground arith)
  | inr (i, e) ↦ (i, e, ground arith, ground arith)
]

pub allocated_info :
    (m : Map ℕ WorkerInfo) (w : ℕ) → IsAllocated m w → (i : WorkerInfo) × (lookup w m ≡ some i)
allocated_info m w h = elim (Option-cases (lookup w m)) [
  | inl e ↦ absurd (h (rw (e, standing) refl))
  | inr found ↦ found
]

pub cell-IsAllocated :
    (m : Map ℕ WorkerInfo) (w : ℕ) (i : WorkerInfo) → lookup w m ≡ some i → IsAllocated m w
cell-IsAllocated m w i h e =
    let there : standing m w ≡ some (i.last_heartbeat, i.reassignment_offer) =
      rw (h, standing) refl in
    cc (e, there)

pub some-value {ℓ} : {A : Type ℓ} {a b : A} → some a ≡ some b → a ≡ b
some-value h = cc h

pub standing-insert :
    (m : Map ℕ WorkerInfo) (w : ℕ) (i j : WorkerInfo) (v : ℕ)
    → lookup w m ≡ some i
    → (j.last_heartbeat ≡ i.last_heartbeat) × (j.reassignment_offer ≡ i.reassignment_offer)
    → standing (insert w j m) v ≡ standing m v
standing-insert m w i j v e same = ground (arith, lookup-insert w v j m)

-- A cell that is written.
pub standing-set :
    (m : Map ℕ WorkerInfo) (w : ℕ) (i : WorkerInfo) (v : ℕ)
    → standing (insert w i m) v
      ≡ (if w == v then some (i.last_heartbeat, i.reassignment_offer) else standing m v)
standing-set m w i v = ground (arith, lookup-insert w v i m)

-- Checkpoints and notifications are no part of it.
pub checkpointed-IsSynced :
    (m : ManagerService) (checkpoints : Map String String) (closed : List CloseNotification)
    → IsSynced m
    → IsNoted m.infos closed
    → IsSynced (record m { checkpoints = checkpoints; closed = closed })
checkpointed-IsSynced m checkpoints closed v noted = record {
  counted = v.counted;
  noted = noted;
  heartbeats = v.heartbeats;
  direction = v.direction;
  counts = v.counts;
  listed = v.listed;
  known = v.known;
  offers = v.offers;
  distinct = v.distinct;
  fresh = v.fresh;
}

pub unassigned-IsSynced :
    (m : ManagerService) (shards : List Shard)
    → IsSynced m
    → IsSynced (record m { unassigned_shards = shards })
unassigned-IsSynced m shards v = record {
  counted = v.counted;
  noted = v.noted;
  heartbeats = v.heartbeats;
  direction = v.direction;
  counts = v.counts;
  listed = v.listed;
  known = v.known;
  offers = v.offers;
  distinct = v.distinct;
  fresh = v.fresh;
}

pub Frame-IsAllocated :
    {m n : ManagerService} → Frame m n → (w : ℕ) → IsAllocated m.infos w → IsAllocated n.infos w
Frame-IsAllocated f w h e = h (sym (f.infos w) ∙ e)

pub Frame-IsSynced : {m n : ManagerService} → IsSynced m → Frame m n → IsSynced n
Frame-IsSynced {m} {n} v f = record {
  counted =
      λ w p h. Frame-IsAllocated f w (v.counted w p (sym (ap (λ q. priority_of q w) f.counts) ∙ h));
  noted =
      subst (IsNoted n.infos) (sym f.closed)
        (weaken-IsNoted m.infos n.infos m.closed (Frame-IsAllocated f) v.noted);
  heartbeats = subst IsValid (sym f.heartbeats) v.heartbeats;
  direction = ap (λ q. q.pq.reversed) f.heartbeats ∙ v.direction;
  counts = subst IsValid (sym f.counts) v.counts;
  listed = λ id w h.
      let (t, o, s, p) = v.listed id w (sym (ap (lookup id) f.workers) ∙ h) in
      (t, o, f.infos w ∙ s, ap (λ q. priority_of q id) f.heartbeats ∙ p);
  known = λ id p h.
      let (w, k) = v.known id p (sym (ap (λ q. priority_of q id) f.heartbeats) ∙ h) in
      (w, ap (lookup id) f.workers ∙ k);
  offers = λ w t o old shards s k e.
      v.offers w t o old shards (sym (f.infos w) ∙ s) k (sym (f.infos old) ∙ e);
  distinct = λ id j w h k.
      v.distinct id j w (sym (ap (lookup id) f.workers) ∙ h) (sym (ap (lookup j) f.workers) ∙ k);
  fresh = λ w h. f.infos w ∙ v.fresh w (rw f.next at h);
}

no_one : (id : String) (w : ℕ) → lookup {V = ℕ} id [] ≢ some w
unfolding lookup
no_one id w h = cc h

-- Nobody is there, and nobody is in the queues.
pub empty-IsSynced :
    (m : ManagerService)
    → m.workers ≡ []
    → IsValid m.worker_heartbeats
    → m.worker_heartbeats.pq.reversed ≡ false
    → ((id : String) → priority_of m.worker_heartbeats id ≡ none)
    → IsValid m.worker_shard_count
    → ((w : ℕ) → priority_of m.worker_shard_count w ≡ none)
    → IsNoted m.infos m.closed
    → ((w t : ℕ) (o : ReassignmentOffer) (old : ℕ) (shards : List Shard)
        → standing m.infos w ≡ some (t, some o)
        → Mem (old, shards) o.shards
        → IsAllocated m.infos old)
    → ((w : ℕ) → m.next_info ≤ w → standing m.infos w ≡ none)
    → IsSynced m
unfolding lookup
empty-IsSynced m none_there valid direction gone counts uncounted noted offers fresh = record {
  counted = λ w p h. absurd (cc (h, uncounted w));
  noted = noted;
  heartbeats = valid;
  direction = direction;
  counts = counts;
  listed = λ id w h. absurd (no_one id w (rw none_there at h));
  known = λ id p h. absurd (cc (h, gone id));
  offers = offers;
  distinct = λ id j w h k. absurd (no_one id w (rw none_there at h));
  fresh = fresh;
}
