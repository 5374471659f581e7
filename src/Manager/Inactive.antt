-- ===== src/Manager/Inactive.antt =====
-- releaseInactiveWorkers: one round, for one worker.
use libvegas.Base.{
  ℕ, ◌≡◌, refl, ◌∙◌, sym, ap, subst, ◌==◌, if◌then◌else◌, List, Option, none, some, String, nat_eq,
  string_eq, inl, inr, Option-cases, Bool-cases,
}
use mathlib.Core.List.{Perm}
use libvegas.Base.Run.{ok, Returns, returned, Returns-then, for_each, for_each_inv}
use libvegas.Base.Map.{Map, lookup, lookup-remove, remove, remove-some}
use libvegas.Messages.{Shard}
use mathlib.Core.List.Perm
use libvegas.Queue.{PriorityQueue, peek}
use libvegas.Queue.Valid.{priority_of}
use libvegas.Queue.Delete.{Deleted}
use libvegas.Queue.Calls.{pop_lem, remove_value_lem, peek-some_pos}
use libvegas.Manager.{
  ManagerService, WorkerInfo, WorkerAssignment, ReassignmentOffer, RangeOrder, set_info,
}
use libvegas.Manager.Release.{
  Releasing, contains, release_shard, release_assignment, delete_assignment, release_offered,
  release_offer, release_worker,
}
use libvegas.Manager.Sync.{
  standing, IsAllocated, IsSynced, IsNoted, weaken-IsNoted, Frame-IsAllocated, Frame, Frame-refl,
  Frame-trans, allocated_info, standing-insert,
}

release_shard-Frame : (s : Shard) (r : Releasing) → Frame r.mgr (release_shard s r).mgr
unfolding release_shard
release_shard-Frame s r = elim (Bool-cases (contains s.shard_id r.released)) [
  | inl old ↦ rw (old, release_shard) (Frame-refl r.mgr)
  | inr new ↦
      rw (new, release_shard)
        (record {
          cfg = refl;
          workers = refl;
          heartbeats = refl;
          counts = refl;
          closed = refl;
          next = refl;
          infos = λ w. refl;
        })
]

release_assignment-Frame :
    (m : ManagerService) (e : String × WorkerAssignment) (r : Releasing)
    → Frame m r.mgr
    → Returns (λ q. Frame m q.mgr) (release_assignment e r)
unfolding release_assignment
release_assignment-Frame m (s, a) r f = elim (Option-cases a.reassignment_request) [
  | inl free ↦
      rw (free, release_assignment) (returned (Frame-trans f (release_shard-Frame a.shard r)))
  | inr (request, wanted) ↦ rw (wanted, release_assignment) (returned f)
]

pub delete_assignment-Frame :
    (m : ManagerService) (w : ℕ) (s : String)
    → IsAllocated m.infos w
    → Returns (Frame m) (delete_assignment w s m)
unfolding delete_assignment set_info
delete_assignment-Frame m w s h =
    let (i, e) = allocated_info m.infos w h in
    rw e (
      returned (record {
        cfg = refl;
        workers = refl;
        heartbeats = refl;
        counts = refl;
        closed = refl;
        next = refl;
        infos = λ v. standing-insert m.infos w i _ v e (refl, refl);
      }))

release_offered-Frame :
    (m : ManagerService) (old : ℕ) (s : Shard) (r : Releasing)
    → IsAllocated m.infos old
    → Frame m r.mgr
    → Returns (λ q. Frame m q.mgr) (release_offered old s r)
unfolding release_offered
release_offered-Frame m old s r h f =
    let g = Frame-trans f (release_shard-Frame s r) in
    Returns-then
      (delete_assignment-Frame (release_shard s r).mgr old s.shard_id
        (λ e. h (sym (g.infos old) ∙ e)))
      λ n k. returned (Frame-trans g k)

-- After a round for the worker `id`: in step again, without it, and without the count of `w`.
pub record Dismissed (m : ManagerService) (id : String) (w : ℕ) (n : ManagerService) : Type 0 where
  pub synced : IsSynced n
  pub cfg : n.cfg ≡ m.cfg
  pub closed : n.closed ≡ m.closed
  pub workers : n.workers ≡ remove id m.workers
  pub infos : (u : ℕ) → standing n.infos u ≡ standing m.infos u
  pub counts :
      (u : ℕ)
      → priority_of n.worker_shard_count u
        ≡ (if w == u then none else priority_of m.worker_shard_count u)

kept_count :
    (q r : PriorityQueue ℕ) (w u p : ℕ)
    → Deleted q w r
    → priority_of r u ≡ some p
    → priority_of q u ≡ some p
kept_count q r w u p d h = elim (Bool-cases (w == u)) [
  | inl same ↦ let gone : priority_of r u ≡ none = d.holds u ∙ rw same refl in absurd (cc (h, gone))
  | inr differ ↦ sym (d.holds u ∙ rw differ refl) ∙ h
]

Frame-Dismissed :
    (m n : ManagerService) (id : String) (w : ℕ) (heartbeats : PriorityQueue String)
    (counts : PriorityQueue ℕ)
    → IsSynced m
    → Frame m n
    → Deleted m.worker_heartbeats id heartbeats
    → Deleted m.worker_shard_count w counts
    → Dismissed m id w (record n {
      worker_heartbeats = heartbeats;
      worker_shard_count = counts;
      workers = remove id n.workers;
    })
Frame-Dismissed m n id w heartbeats counts v f d c = record {
  closed = f.closed;
  cfg = f.cfg;
  workers = ap (remove id) f.workers;
  infos = f.infos;
  counts = c.holds;
  synced = record {
    heartbeats = d.valid;
    direction = d.flag ∙ v.direction;
    counts = c.valid;
    counted = λ u p h.
        Frame-IsAllocated f u (v.counted u p (kept_count m.worker_shard_count counts w u p c h));
    noted =
        subst (IsNoted n.infos) (sym f.closed)
          (weaken-IsNoted m.infos n.infos m.closed (Frame-IsAllocated f) v.noted);
    listed = λ j w h.
        let (differ, h') = remove-some id j w n.workers h in
        let (t, o, s, p) = v.listed j w (rw f.workers at h') in
        (t, o, f.infos w ∙ s, d.holds j ∙ rw differ p);
    known = λ j p h. elim (Bool-cases (id == j)) [
      | inl same ↦
          let gone : priority_of heartbeats j ≡ none = d.holds j ∙ rw same refl in
          absurd (cc (h, gone))
      | inr differ ↦
          let there : priority_of heartbeats j ≡ priority_of m.worker_heartbeats j =
            d.holds j ∙ rw differ refl in
          let (w, k) = v.known j p (sym there ∙ h) in
          (w, lookup-remove id j n.workers ∙ rw (differ, f.workers) k)
    ];
    offers = λ w t o old shards s k e.
        v.offers w t o old shards (sym (f.infos w) ∙ s) k (sym (f.infos old) ∙ e);
    distinct = λ j k w h l.
        v.distinct j k w (rw f.workers at (remove-some id j w n.workers h).1)
          (rw f.workers at (remove-some id k w n.workers l).1);
    fresh = λ w h. f.infos w ∙ v.fresh w (rw f.next at h);
  };
}

shown :
    (q : PriorityQueue String) (v w : String) → peek q ≡ ok (some v) → peek q ≡ ok (some w) → v ≡ w
shown q v w h k = cc (h, k)

module _ (order : RangeOrder) (visits : (m : Map ℕ (List Shard)) → Perm (order.offers m) m) where
  release_offer-Frame :
      (m : ManagerService) (w t : ℕ) (o : Option ReassignmentOffer) (r : Releasing)
      → IsSynced m
      → standing m.infos w ≡ some (t, o)
      → Frame m r.mgr
      → Returns (λ q. Frame m q.mgr) (release_offer order o r)
  unfolding release_offer
  release_offer-Frame m w t none r v s f = returned f
  release_offer-Frame m w t (some o) r v s f =
      for_each_inv (λ q. Frame m q.mgr) (λ e. for_each (release_offered e.0) e.1)
        (order.offers o.shards)
        (λ (old, shards) q k g.
          for_each_inv (λ q. Frame m q.mgr) (release_offered old) shards
            (λ x u l.
              release_offered-Frame m old x u
                (v.offers w t o old shards s ((Perm.mem_iff (visits o.shards)).0 k)))
            q g)
        r f

  pub release_worker-Dismissed :
      (id : String) (w : ℕ) (i : WorkerInfo) (r : Releasing)
      → IsSynced r.mgr
      → lookup w r.mgr.infos ≡ some i
      → peek r.mgr.worker_heartbeats ≡ ok (some id)
      → Returns (λ q. Dismissed r.mgr id w q.mgr) (release_worker order id w i r)
  unfolding release_worker
  release_worker-Dismissed id w i r v e first =
      let m = r.mgr in
      Returns-then
        (for_each_inv (λ q. Frame m q.mgr) release_assignment (order.assignments i.assignments)
          (λ a u k. release_assignment-Frame m a u) r (Frame-refl m))
        λ r' f.
          Returns-then
            (release_offer-Frame m w i.last_heartbeat i.reassignment_offer r' v
              (rw (e, standing) refl) f)
            λ r'' g.
              rw (g.heartbeats, g.counts)
                (Returns-then
                  (pop_lem m.worker_heartbeats v.heartbeats
                    (peek-some_pos m.worker_heartbeats id first))
                  λ (j, heartbeats) (shows, _, d).
                    Returns-then (remove_value_lem m.worker_shard_count w v.counts)
                      λ (b, counts) (_, c). returned (
                        Frame-Dismissed m r''.mgr id w heartbeats counts v g
                          (subst (λ x. Deleted m.worker_heartbeats x heartbeats)
                            (shown m.worker_heartbeats j id shows first) d)
                          c))
