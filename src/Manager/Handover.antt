-- ===== src/Manager/Handover.antt =====
-- acquireDueReassignments: the shards of a due offer change hands.
use libvegas.Base.{
  ℕ, ◌+◌, ◌≡◌, refl, List, Option, none, some, leb, nat_eq, string_eq, if◌then◌else◌,
}
use mathlib.Core.List.{Perm}
use mathlib.Core.List.Perm
use libvegas.Base.Run.{ok, for_each, for_each_inv, Returns, returned, Returns-then, Returns-split}
use libvegas.Base.Map.{Map, lookup}
use libvegas.Messages.{Shard}
use libvegas.Manager.{
  ManagerService, WorkerInfo, ReassignmentOffer, RangeOrder, set_info, get_next_assignment_id,
  shard_release_timeout,
}
use libvegas.Manager.Acquire.{give_shard, take_over, accept_offer, acquire_due_reassignments}
use libvegas.Manager.Sync.{
  standing, IsAllocated, IsSynced, Frame, Frame-refl, Frame-trans, Frame-IsSynced,
  Frame-IsAllocated, allocated_info, cell-IsAllocated, standing-insert,
}
use libvegas.Manager.Inactive.{delete_assignment-Frame}
use libvegas.Manager.Keeps.{Settled, offer-IsSynced}

pub give_shard-Frame :
    (w : ℕ) (s : Shard) (m : ManagerService)
    → IsAllocated m.infos w
    → Returns (Frame m) (give_shard w s m)
unfolding give_shard get_next_assignment_id set_info
give_shard-Frame w s m here =
    let (i, e) = allocated_info m.infos w here in
    rw e (
      returned (record {
        cfg = refl;
        workers = refl;
        heartbeats = refl;
        counts = refl;
        closed = refl;
        next = refl;
        infos = λ v. standing-insert m.infos w i _ v e (refl, refl);
      }))

take_over-Frame :
    (w old : ℕ) (s : Shard) (m : ManagerService) (r : ℕ × ManagerService)
    → IsAllocated m.infos w
    → IsAllocated m.infos old
    → Frame m r.1
    → Returns (λ q. Frame m q.1) (take_over w old s r)
unfolding take_over
take_over-Frame w old s m (n, r) here there f =
    Returns-then (delete_assignment-Frame r old s.shard_id (Frame-IsAllocated f old there)) λ r' g.
      Returns-then (give_shard-Frame w s r' (Frame-IsAllocated g w (Frame-IsAllocated f w here)))
        λ r'' h. returned (Frame-trans f (Frame-trans g h))

module _ (order : RangeOrder) (visits : (m : Map ℕ (List Shard)) → Perm (order.offers m) m) where
  accept_offer-Settled :
      (w t : ℕ) (offer : ReassignmentOffer) (m : ManagerService)
      → IsSynced m
      → IsAllocated m.infos w
      → standing m.infos w ≡ some (t, some offer)
      → Returns (λ r. Settled m.workers m.closed r.1) (accept_offer order w offer m)
  unfolding accept_offer
  accept_offer-Settled w t offer m v here s =
      Returns-then
        (for_each_inv (λ r. Frame m r.1) (λ e. for_each (take_over w e.0) e.1)
          (order.offers offer.shards)
          (λ (old, shards) q k g.
            for_each_inv (λ r. Frame m r.1) (take_over w old) shards
              (λ x u l f.
                take_over-Frame w old x m u here
                  (v.offers w t offer old shards s ((Perm.mem_iff (visits offer.shards)).0 k)) f)
              q g)
          (0, m) (Frame-refl m))
        λ (n, r) f.
          let (i, e) = allocated_info r.infos w (Frame-IsAllocated f w here) in
          rw e (
            returned (record {
              synced = offer-IsSynced r w i none (Frame-IsSynced v f) e tt;
              workers = f.workers;
              closed = f.closed;
            }))

  due-Settled :
      (w now : ℕ) (m : ManagerService) (i : WorkerInfo)
      → IsSynced m
      → lookup w m.infos ≡ some i
      → (o : Option ReassignmentOffer) → i.reassignment_offer ≡ o
      → Returns {A = ℕ × ManagerService}
          (λ r. Settled m.workers m.closed r.1)
          (elim o [
            | none ↦ ok (0, m)
            | some offer ↦
                if leb (offer.created_at + shard_release_timeout m.cfg) now
                then accept_offer order w offer m
                else ok (0, m)
          ])
  due-Settled w now m i v cell none e =
      returned (record { synced = v; workers = refl; closed = refl })
  due-Settled w now m i v cell (some offer) e =
      let s : standing m.infos w ≡ some (i.last_heartbeat, some offer) =
        rw (cell, standing) (rw e refl) in
      Returns-split (leb (offer.created_at + shard_release_timeout m.cfg) now)
        (λ due.
          accept_offer-Settled w i.last_heartbeat offer m v (cell-IsAllocated m.infos w i cell) s)
        (λ early. returned (record { synced = v; workers = refl; closed = refl }))

  -- On a manager in step, and for any order in which a map is visited, acquireDueReassignments
  -- returns for a worker that has a cell; the workers and notifications are the same, and the
  -- manager is in step.
  pub acquire_due_reassignments-Settled :
      (w now : ℕ) (m : ManagerService)
      → IsSynced m
      → IsAllocated m.infos w
      → Returns (λ r. Settled m.workers m.closed r.1) (acquire_due_reassignments order w now m)
  unfolding acquire_due_reassignments
  acquire_due_reassignments-Settled w now m v here =
      let (i, e) = allocated_info m.infos w here in
      rw e (due-Settled w now m i v e i.reassignment_offer refl)
