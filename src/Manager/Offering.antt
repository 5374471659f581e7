-- ===== src/Manager/Offering.antt =====
-- What a manager holds stays within the lineage: the shards that a worker is offered.
use libvegas.Base.{
  ℕ, zero, suc, ◌-◌, ◌/◌, ◌≡◌, refl, subst, Bool, List, [], ◌∷◌, some, String, nat_eq, string_eq,
  ◌==◌, ◌||◌, nat_beq, if◌then◌else◌, inl, inr, Bool-cases, Option-cases, length,
}
use mathlib.Core.List.{Mem, mem-cons_self, mem-cons_of_mem}
use mathlib.Core.List.Perm
use libvegas.Base.Run.{ok, panic}
use libvegas.Base.Partial.{Only, only, by_fuel, or_panic-Only, any-Only, Only-then, Only-split}
use libvegas.Base.Map.{Map, lookup, lookup_or}
use libvegas.Base.Int.{pos, leb_ℤ, dec}
use libvegas.Messages.{Shard}
use libvegas.Queue
use libvegas.Manager.{
  ManagerService, WorkerInfo, WorkerAssignment, RangeOrder, set_info, priority_of_int,
}
use libvegas.Manager.Numbers.{has_id-Mem, same-AreOf, rewrite-AreOf}
use libvegas.Manager.Held.{
  ArePooled, AreOffered, IsHeld, IsOurs, set_info-IsOurs, insert-AreHeld, append-ArePooled,
  insert-AreOffered, held_member,
}
use libvegas.Manager.Holding.{IsLawful, same-IsOurs}
use libvegas.Manager.Rebalance.{find_stealable, request_reassignment, rebalance_loop, rebalance}

module _ (known : String → Bool) where
  found_stealable :
      (l : Map String WorkerAssignment) (e : String × WorkerAssignment)
      → find_stealable l ≡ some e
      → Mem e l
  unfolding find_stealable
  found_stealable [] e h = absurd (cc h)
  found_stealable ((s, a) ∷ rest) e h = elim (Option-cases a.reassignment_request) [
    | inl free ↦
        let one : (s, a) ≡ e = cc (rw free at h) in
        subst (λ x. Mem x ((s, a) ∷ rest)) one mem-cons_self
    | inr (q, wanted) ↦ mem-cons_of_mem (s, a) (found_stealable rest e (rw wanted at h))
  ]

  request_reassignment-IsOurs :
      (clock w : ℕ) (i : WorkerInfo) (e : String × WorkerAssignment) (m : ManagerService)
      → lookup w m.infos ≡ some i
      → Mem e i.assignments
      → IsOurs known m
      → Only (IsOurs known) (request_reassignment clock w i e m)
  unfolding request_reassignment
  request_reassignment-IsOurs clock w i (s, a) m cell found o =
      let (held, offered) = o.cells w i cell in
      let (k, k') = held_member known i.assignments held (s, a) found in
      Only-then
        (any-Only (Queue.push m.worker_shard_count w (priority_of_int (dec i.active_shard_count))))
        λ q _. only (
          same-IsOurs known (set_info m w _) _ refl refl refl refl (
            set_info-IsOurs known m w _ o
              (insert-AreHeld known s _ i.assignments k k' held, offered)
              (rewrite-AreOf m.infos w i cell s a _ (has_id-Mem s a i.assignments found) refl)))

  lookup-AreOffered :
      (w : ℕ) (m : Map ℕ (List Shard)) → AreOffered known m → ArePooled known (lookup_or [] w m)
  unfolding lookup
  lookup-AreOffered w [] h = tt
  lookup-AreOffered w ((u, shards) ∷ rest) (f, t) = elim (Bool-cases (u == w)) [
    | inl same ↦ rw (same, ArePooled) f
    | inr differ ↦ rw (differ, ArePooled) (lookup-AreOffered w rest t)
  ]

  module _ (order : RangeOrder) (lawful : IsLawful order) where
    abbrev Offering : Map ℕ (List Shard) × ManagerService → Type 0
    Offering (offers, m) = AreOffered known offers × IsOurs known m

    rebalance_loop-IsOurs :
        (fuel clock ideal : ℕ) (id : String) (target : ℕ) (offers : Map ℕ (List Shard))
        (m : ManagerService)
        → AreOffered known offers
        → IsOurs known m
        → Only Offering (rebalance_loop order fuel clock ideal id target offers m)
    unfolding rebalance_loop
    rebalance_loop-IsOurs zero clock ideal id target offers m h o = by_fuel
    rebalance_loop-IsOurs (suc k) clock ideal id target offers m h o =
        Only-then (any-Only (Queue.peek m.worker_shard_count)) λ busiest _.
          Only-split (nat_beq target 0) (only (h, o)) (elim (Option-cases busiest) [
            | inl e ↦ rw e (only (h, o))
            | inr (w, e) ↦ rw e (
                Only-then (or_panic-Only (lookup w m.infos)) λ i cell.
                  Only-split (i.worker_id == id || leb_ℤ i.active_shard_count (pos ideal))
                    (only (h, o))
                    (elim (Option-cases (find_stealable (order.assignments i.assignments))) [
                      | inl f ↦ rw f (rebalance_loop-IsOurs k clock ideal id target offers m h o)
                      | inr ((s, a), f) ↦
                          let held = o.cells w i cell in
                          let there = found_stealable (order.assignments i.assignments) (s, a) f in
                          let found = (Perm.mem_iff (lawful.assignments i.assignments)).0 there in
                          let n' = (held_member known i.assignments held.0 (s, a) found).1 in
                          rw f (
                            Only-then (request_reassignment-IsOurs clock w i (s, a) m cell found o)
                              λ m' o'.
                                rebalance_loop-IsOurs k clock ideal id (target - 1) _ m'
                                  (insert-AreOffered known w _ offers
                                    (append-ArePooled known (lookup_or [] w offers) a.shard
                                      (lookup-AreOffered w offers h) n')
                                    h)
                                  o')
                    ]))
          ])

    offer-IsOurs :
        (w now : ℕ) (m : ManagerService) (i : WorkerInfo)
        → IsHeld known i
        → lookup w m.infos ≡ some i
        → IsOurs known m
        → (offers : Map ℕ (List Shard)) → AreOffered known offers
        → IsOurs known (elim offers [
          | [] ↦ m
          | first ∷ rest ↦ set_info m w (record i {
            reassignment_offer = some (record { shards = first ∷ rest; created_at = now });
          })
        ])
    offer-IsOurs w now m i h cell o [] k = o
    offer-IsOurs w now m i h cell o (first ∷ rest) k =
        set_info-IsOurs known m w _ o (h.0, k) (same-AreOf m.infos w i cell)

    pub rebalance-IsOurs :
        (fuel clock w now : ℕ) (m : ManagerService)
        → IsOurs known m
        → Only (IsOurs known) (rebalance order fuel clock w now m)
    unfolding rebalance
    rebalance-IsOurs fuel clock w now m o = Only-then (or_panic-Only (lookup w m.infos)) λ i cell.
        Only-then
          (any-Only (
            if nat_beq (length m.workers) 0
            then panic
            else ok (length m.live_shards / length m.workers)))
          λ ideal _.
            Only-then (rebalance_loop-IsOurs fuel clock ideal i.worker_id _ [] m tt o)
              λ (offers, m') (k, o').
                Only-then (or_panic-Only (lookup w m'.infos)) λ i' cell'.
                  only (offer-IsOurs w now m' i' (o'.cells w i' cell') cell' o' offers k)
