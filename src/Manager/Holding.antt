-- ===== src/Manager/Holding.antt =====
-- What a manager holds stays within the lineage: the release of workers.
use libvegas.Base.{
  ℕ, zero, suc, ◌≡◌, refl, sym, ap, subst, Bool, List, [], Option, none, some, String, nat_eq,
  string_eq, ◌∙◌, inl, inr, Bool-cases, Option-cases,
}
use mathlib.Core.List.{Perm}
use mathlib.Core.List.Perm
use libvegas.Base.Partial.{
  Only, only, by_fuel, or_panic-Only, any-Only, Only-then, Only-split, for_each-Only,
}
use libvegas.Base.Map.{Map, lookup}
use libvegas.Messages.{Shard}
use libvegas.Queue
use libvegas.Manager.{ManagerService, WorkerInfo, WorkerAssignment, ReassignmentOffer, RangeOrder}
use libvegas.Manager.Numbers.{AreNumbered, remove-AreOf}
use libvegas.Manager.Held.{
  next_id, IsKnown, ArePooled, IsOffered, IsHeld, IsOurs, set_info-IsOurs, remove-AreHeld,
  append-ArePooled, held_member, offered_member,
}
use libvegas.Manager.Notes.{AreKnown}
use libvegas.Manager.Release.{
  Releasing, contains, release_shard, release_assignment, delete_assignment, release_offered,
  release_offer, release_worker, release_loop, release_inactive_workers,
}

-- The order in which a `range` visits is one of the entries of the map.
pub record IsLawful (order : RangeOrder) : Type 0 where
  pub assignments : (m : Map String WorkerAssignment) → Perm (order.assignments m) m
  pub offers : (m : Map ℕ (List Shard)) → Perm (order.offers m) m

module _ (known : String → Bool) where
  -- The rest of the state does not matter.
  pub same-IsOurs :
      (m n : ManagerService)
      → n.infos ≡ m.infos
      → n.unassigned_shards ≡ m.unassigned_shards
      → n.closed ≡ m.closed
      → next_id n ≡ next_id m
      → IsOurs known m
      → IsOurs known n
  same-IsOurs m n e e' e'' f o = record {
    cells = λ w i h. o.cells w i (sym (ap (lookup w) e) ∙ h);
    pool = subst (ArePooled known) (sym e') o.pool;
    closed = subst (AreKnown (IsKnown known)) (sym e'') o.closed;
    numbers =
        subst (λ i. AreNumbered i (next_id n)) (sym e)
          (subst (AreNumbered m.infos) (sym f) o.numbers);
  }

  pub delete_assignment-IsOurs :
      (w : ℕ) (s : String) (m : ManagerService)
      → IsOurs known m
      → Only (IsOurs known) (delete_assignment w s m)
  unfolding delete_assignment
  delete_assignment-IsOurs w s m o = Only-then (or_panic-Only (lookup w m.infos)) λ i cell.
      let (held, offered) = o.cells w i cell in
      only (
        set_info-IsOurs known m w _ o (remove-AreHeld known s i.assignments held, offered)
          (remove-AreOf m.infos w i cell s))

  release_shard-IsOurs :
      (s : Shard) (r : Releasing)
      → IsKnown known s.shard_id
      → IsOurs known r.mgr
      → IsOurs known ((release_shard s r).mgr)
  unfolding release_shard
  release_shard-IsOurs s r k o = elim (Bool-cases (contains s.shard_id r.released)) [
    | inl gone ↦ rw gone o
    | inr new ↦ rw new (record {
      cells = o.cells;
      pool = append-ArePooled known r.mgr.unassigned_shards s o.pool k;
      closed = o.closed;
      numbers = o.numbers;
    })
  ]

  abbrev Kept : Releasing → Type 0
  Kept r = IsOurs known r.mgr

  release_assignment-IsOurs :
      (e : String × WorkerAssignment) (r : Releasing)
      → IsKnown known e.1.shard.shard_id
      → Kept r
      → Only Kept (release_assignment e r)
  unfolding release_assignment
  release_assignment-IsOurs (s, a) r k o = elim (Option-cases a.reassignment_request) [
    | inl kept ↦ rw (kept, release_assignment) (only (release_shard-IsOurs a.shard r k o))
    | inr (q, wanted) ↦ rw (wanted, release_assignment) (only o)
  ]

  release_offered-IsOurs :
      (old : ℕ) (s : Shard) (r : Releasing)
      → IsKnown known s.shard_id
      → Kept r
      → Only Kept (release_offered old s r)
  unfolding release_offered
  release_offered-IsOurs old s r k o =
      Only-then (delete_assignment-IsOurs old s.shard_id _ (release_shard-IsOurs s r k o))
        λ m h. only h

  module _ (order : RangeOrder) (lawful : IsLawful order) where
    release_offer-IsOurs :
        (offer : Option ReassignmentOffer) (r : Releasing)
        → IsOffered known offer
        → Kept r
        → Only Kept (release_offer order offer r)
    unfolding release_offer
    release_offer-IsOurs none r h o = only o
    release_offer-IsOurs (some offer) r h o =
        for_each-Only Kept _ (order.offers offer.shards)
          (λ (old, shards) q m k.
            for_each-Only Kept (release_offered old) shards
              (λ s p n. release_offered-IsOurs old s p (
                offered_member known offer.shards h old shards
                  ((Perm.mem_iff (lawful.offers offer.shards)).0 m) s n))
              q k)
          r o

    release_worker-IsOurs :
        (id : String) (w : ℕ) (i : WorkerInfo) (r : Releasing)
        → IsHeld known i
        → Kept r
        → Only Kept (release_worker order id w i r)
    unfolding release_worker
    release_worker-IsOurs id w i r (held, offered) o =
        Only-then
          (for_each-Only Kept release_assignment (order.assignments i.assignments)
            (λ e q m.
              release_assignment-IsOurs e q
                (held_member known i.assignments held e
                  ((Perm.mem_iff (lawful.assignments i.assignments)).0 m)).1)
            r o)
          λ q k. Only-then (release_offer-IsOurs i.reassignment_offer q offered k) λ p h.
            Only-then (any-Only (Queue.pop p.mgr.worker_heartbeats)) λ x _.
              Only-then (any-Only (Queue.remove_value p.mgr.worker_shard_count w))
                λ y _. only (same-IsOurs p.mgr _ refl refl refl refl h)

    release_loop-IsOurs :
        (fuel at : ℕ) (r : Releasing) → Kept r → Only (IsOurs known) (release_loop order fuel at r)
    unfolding release_loop
    release_loop-IsOurs zero at r o = by_fuel
    release_loop-IsOurs (suc k) at r o =
        Only-then (any-Only (Queue.peek r.mgr.worker_heartbeats)) λ first _.
          elim (Option-cases first) [
            | inl e ↦ rw e (only o)
            | inr (id, e) ↦ rw e (
                Only-then (or_panic-Only (lookup id r.mgr.workers)) λ w _.
                  Only-then (or_panic-Only (lookup w r.mgr.infos)) λ i cell. Only-split _ (only o) (
                    Only-then (release_worker-IsOurs id w i r (o.cells w i cell) o)
                      (release_loop-IsOurs k at)))
          ]

    pub release_inactive_workers-IsOurs :
        (fuel at : ℕ) (m : ManagerService)
        → IsOurs known m
        → Only (IsOurs known) (release_inactive_workers order fuel at m)
    unfolding release_inactive_workers
    release_inactive_workers-IsOurs fuel at m o =
        release_loop-IsOurs fuel at (record { mgr = m; released = [] }) o
