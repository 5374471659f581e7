-- ===== src/Manager/Gaining.antt =====
-- What a manager holds stays within the lineage: the shards that a worker gains and is offered.
use libvegas.Base.{
  suc, arith, ℕ, refl, subst, Bool, String, nat_eq, string_eq, inl, inr, Option-cases, take, length,
  ltb,
}
use mathlib.Core.List.Perm
use libvegas.Base.Partial.{
  Only, only, by_panic, or_panic-Only, any-Only, Only-then, Only-split, for_each-Only,
}
use libvegas.Base.Map.{lookup}
use libvegas.Messages.{Shard}
use libvegas.Queue
use libvegas.Manager.{ManagerService, ReassignmentOffer, RangeOrder, set_info}
use libvegas.Manager.Numbers.{same-AreOf, give-AreNumbered, weaken-AreNumbered}
use libvegas.Manager.Held.{
  next_id, set_info-cells, IsKnown, AreOffered, IsOffered, IsOurs, set_info-IsOurs, insert-AreHeld,
  take-ArePooled, drop-ArePooled, pooled_member, offered_member,
}
use libvegas.Manager.Holding.{IsLawful, same-IsOurs, delete_assignment-IsOurs}
use libvegas.Manager.Acquire.{
  find_or_add_worker, resolve_active_worker, give_shard, take_over, accept_offer,
  acquire_due_reassignments, assign_from_unassigned_pool,
}

module _ (known : String → Bool) where
  find_or_add_worker-IsOurs :
      (id : String) (m : ManagerService) → IsOurs known m → IsOurs known (find_or_add_worker id m).1
  unfolding find_or_add_worker
  find_or_add_worker-IsOurs id m o = elim (Option-cases (lookup id m.workers)) [
    | inl new ↦
        rw (new, find_or_add_worker)
          (same-IsOurs known (set_info m m.next_info _) _ refl refl refl refl
            (set_info-IsOurs known m m.next_info _ o (tt, tt) λ s id h. absurd (cc h)))
    | inr (w, old) ↦ rw (old, find_or_add_worker) o
  ]

  pub resolve_active_worker-IsOurs :
      (id : String) (at : ℕ) (m : ManagerService)
      → IsOurs known m
      → Only (λ r. IsOurs known r.1) (resolve_active_worker id at m)
  unfolding resolve_active_worker
  resolve_active_worker-IsOurs id at m o =
      let (w, n) = find_or_add_worker id m in
      let k : IsOurs known n = find_or_add_worker-IsOurs id m o in
      Only-then (or_panic-Only (lookup w n.infos)) λ i cell.
        Only-then (any-Only (Queue.push n.worker_heartbeats id _)) λ q _. only (
          same-IsOurs known (set_info n w (record i { last_heartbeat = at })) _ refl refl refl refl
            (set_info-IsOurs known n w _ k (k.cells w i cell) (same-AreOf n.infos w i cell)))

  give_shard-IsOurs :
      (w : ℕ) (s : Shard) (m : ManagerService)
      → IsKnown known s.shard_id
      → IsOurs known m
      → Only (IsOurs known) (give_shard w s m)
  unfolding give_shard
  give_shard-IsOurs w s m k o = Only-then (or_panic-Only (lookup w m.infos)) λ i cell.
      let (held, offered) = o.cells w i cell in
      only (record {
        cells =
            set_info-cells known m w _ o
              (insert-AreHeld known s.shard_id _ i.assignments k k held, offered);
        pool = o.pool;
        closed = o.closed;
        numbers = weaken-AreNumbered _ (suc (next_id m)) _ (omega arith) (
            give-AreNumbered m.infos (next_id m) w _ s.shard_id _ o.numbers i.assignments
              (same-AreOf m.infos w i cell) refl refl);
      })

  take_over-IsOurs :
      (w old : ℕ) (s : Shard) (r : ℕ × ManagerService)
      → IsKnown known s.shard_id
      → IsOurs known r.1
      → Only (λ r'. IsOurs known r'.1) (take_over w old s r)
  unfolding take_over
  take_over-IsOurs w old s (n, m) k o =
      Only-then (delete_assignment-IsOurs known old s.shard_id m o)
        λ m' h. Only-then (give_shard-IsOurs w s m' k h) λ m'' h'. only h'

  pub assign_from_unassigned_pool-IsOurs :
      (count w : ℕ) (m : ManagerService)
      → IsOurs known m
      → Only (IsOurs known) (assign_from_unassigned_pool count w m)
  unfolding assign_from_unassigned_pool
  assign_from_unassigned_pool-IsOurs count w m o =
      Only-split (ltb (length m.unassigned_shards) count) by_panic (
        Only-then
          (for_each-Only (IsOurs known) (give_shard w) (take count m.unassigned_shards)
            (λ s n t. give_shard-IsOurs w s n (
              pooled_member known (take count m.unassigned_shards)
                (take-ArePooled known count m.unassigned_shards o.pool) s t))
            m o)
          λ n h. only (record {
            cells = h.cells;
            pool = drop-ArePooled known count n.unassigned_shards h.pool;
            closed = h.closed;
            numbers = h.numbers;
          }))

  module _ (order : RangeOrder) (lawful : IsLawful order) where
    accept_offer-IsOurs :
        (w : ℕ) (offer : ReassignmentOffer) (m : ManagerService)
        → AreOffered known offer.shards
        → IsOurs known m
        → Only (λ r. IsOurs known r.1) (accept_offer order w offer m)
    unfolding accept_offer
    accept_offer-IsOurs w offer m h o =
        Only-then
          (for_each-Only (λ r. IsOurs known r.1) _ (order.offers offer.shards)
            (λ (old, shards) q t k.
              for_each-Only (λ r. IsOurs known r.1) (take_over w old) shards
                (λ s p n. take_over-IsOurs w old s p (
                  offered_member known offer.shards h old shards
                    ((Perm.mem_iff (lawful.offers offer.shards)).0 t) s n))
                q k)
            (0, m) o)
          λ (n, m') k. Only-then (or_panic-Only (lookup w m'.infos)) λ i cell. only (
            set_info-IsOurs known m' w _ k ((k.cells w i cell).0, tt)
              (same-AreOf m'.infos w i cell))

    pub acquire_due_reassignments-IsOurs :
        (w now : ℕ) (m : ManagerService)
        → IsOurs known m
        → Only (λ r. IsOurs known r.1) (acquire_due_reassignments order w now m)
    unfolding acquire_due_reassignments
    acquire_due_reassignments-IsOurs w now m o =
        Only-then (or_panic-Only (lookup w m.infos)) λ i cell.
          elim (Option-cases i.reassignment_offer) [
            | inl e ↦ rw e (only o)
            | inr (offer, e) ↦
                let h : AreOffered known offer.shards =
                  subst (IsOffered known) e (o.cells w i cell).1 in
                rw e (Only-split _ (accept_offer-IsOurs w offer m h o) (only o))
          ]
