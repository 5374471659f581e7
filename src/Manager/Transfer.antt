-- ===== src/Manager/Transfer.antt =====
-- acquireDueReassignments: who holds which shard after a due offer.
use libvegas.Base.{
  ℕ, ◌+◌, ◌≡◌, refl, sym, ◌∙◌, ap, Bool, true, false, List, [], ◌∷◌, Option, none, some, leb,
  nat_eq, string_eq, ◌==◌, if◌then◌else◌, inl, inr, Bool-cases, arith, length, subst,
}
use mathlib.Core.Path.{fun_ext}
use mathlib.Core.List.{Perm}
use libvegas.Base.Run.{ok, for_each, Returns}
use libvegas.Base.Partial.{Only, only, Only-then, Only-weaken, or_panic-Only, Returns-Only_both}
use libvegas.Base.Map.{Map, lookup, lookup-insert_self, beq_eq}
use libvegas.Messages.{Shard}
use libvegas.Manager.{
  ManagerService, WorkerInfo, ReassignmentOffer, RangeOrder, set_info, shard_release_timeout,
}
use libvegas.Manager.Acquire.{take_over, accept_offer, acquire_due_reassignments}
use libvegas.Manager.Sync.{IsSynced, cell-IsAllocated}
use libvegas.Manager.Keeps.{Settled}
use libvegas.Manager.Handover.{acquire_due_reassignments-Settled}
use libvegas.Manager.Holdings.{
  holds_at, transfer_all, hand_over, offered, holds_at-set, holds_at-cell, take_over-transfer,
}

take_over_each :
    (w old : ℕ) (shards : List Shard) (r : ℕ × ManagerService)
    → Only
        (λ q.
          (q.0 ≡ r.0 + length shards) × (holds_at q.1 ≡ transfer_all w old shards (holds_at r.1)))
        (for_each (take_over w old) shards r)
unfolding for_each
take_over_each w old [] r = only (omega arith, refl)
take_over_each w old (s ∷ rest) r = Only-then (take_over-transfer w old s r) λ r1 (n1, h1).
    Only-weaken (take_over_each w old rest r1)
      λ r2 (n2, h2). (omega (arith, n1, n2), h2 ∙ ap (transfer_all w old rest) h1)

hand_over_each :
    (w : ℕ) (offers : Map ℕ (List Shard)) (r : ℕ × ManagerService)
    → Only
        (λ q. (q.0 ≡ r.0 + offered offers) × (holds_at q.1 ≡ hand_over w offers (holds_at r.1)))
        (for_each (λ (old, shards). for_each (take_over w old) shards) offers r)
unfolding for_each
hand_over_each w [] r = only (omega arith, refl)
hand_over_each w ((old, shards) ∷ rest) r = Only-then (take_over_each w old shards r) λ r1 (n1, h1).
    Only-weaken (hand_over_each w rest r1)
      λ r2 (n2, h2). (omega (arith, n1, n2), h2 ∙ ap (hand_over w rest) h1)

module _ (order : RangeOrder) where
  -- What the call of the worker `w`, whose cell is `i`, comes to. Without an offer that is due
  -- nothing changes.
  pub data Acquired (w now : ℕ) (m : ManagerService) (i : WorkerInfo)
      : ℕ × ManagerService → Type 0 where
    no_offer : i.reassignment_offer ≡ none → Acquired w now m i (0, m)
    not_due :
        (offer : ReassignmentOffer)
        → i.reassignment_offer ≡ some offer
        → leb (offer.created_at + shard_release_timeout m.cfg) now ≡ false
        → Acquired w now m i (0, m)
    due :
        (offer : ReassignmentOffer) {n : ManagerService} (j : WorkerInfo)
        → i.reassignment_offer ≡ some offer
        → leb (offer.created_at + shard_release_timeout m.cfg) now ≡ true
        → lookup w n.infos ≡ some j
        → j.reassignment_offer ≡ none
        → holds_at n ≡ hand_over w (order.offers offer.shards) (holds_at m)
        → Acquired w now m i (offered (order.offers offer.shards), n)

  due-Acquired :
      (w now : ℕ) (m n : ManagerService) (i j : WorkerInfo) (offer : ReassignmentOffer) (k : ℕ)
      → k ≡ offered (order.offers offer.shards)
      → i.reassignment_offer ≡ some offer
      → leb (offer.created_at + shard_release_timeout m.cfg) now ≡ true
      → lookup w n.infos ≡ some j
      → j.reassignment_offer ≡ none
      → holds_at n ≡ hand_over w (order.offers offer.shards) (holds_at m)
      → Acquired w now m i (k, n)
  due-Acquired w now m n i j offer k count e late cell cleared h =
      subst (λ x. Acquired w now m i (x, n)) (sym count) (due offer j e late cell cleared h)

  kept_holdings :
      (m : ManagerService) (w : ℕ) (i : WorkerInfo)
      → lookup w m.infos ≡ some i
      → holds_at (set_info m w (record i { reassignment_offer = none })) ≡ holds_at m
  kept_holdings m w i e = fun_ext λ v. fun_ext λ k. elim (Bool-cases (w == v)) [
    | inl same ↦
        holds_at-set m w _ v k
        ∙ rw same (sym (holds_at-cell m w i k e) ∙ ap (λ u. holds_at m u k) (beq_eq w v same))
    | inr differ ↦ holds_at-set m w _ v k ∙ rw differ refl
  ]

  accept_offer-Acquired :
      (w now : ℕ) (m : ManagerService) (i : WorkerInfo) (offer : ReassignmentOffer)
      → i.reassignment_offer ≡ some offer
      → leb (offer.created_at + shard_release_timeout m.cfg) now ≡ true
      → Only (Acquired w now m i) (accept_offer order w offer m)
  unfolding accept_offer set_info
  accept_offer-Acquired w now m i offer e late =
      Only-then (hand_over_each w (order.offers offer.shards) (0, m)) λ (k, n) (count, h).
        Only-then (or_panic-Only (lookup w n.infos)) λ j cell. only (
          due-Acquired w now m _ i _ offer k (omega (arith, count)) e late
            (lookup-insert_self w _ n.infos) refl (kept_holdings n w j cell ∙ h))

  timed-Acquired :
      (w now : ℕ) (m : ManagerService) (i : WorkerInfo) (offer : ReassignmentOffer)
      → i.reassignment_offer ≡ some offer
      → (b : Bool) → leb (offer.created_at + shard_release_timeout m.cfg) now ≡ b
      → Only (Acquired w now m i) (if b then accept_offer order w offer m else ok (0, m))
  timed-Acquired w now m i offer e true late = accept_offer-Acquired w now m i offer e late
  timed-Acquired w now m i offer e false early = only (not_due offer e early)

  offered-Acquired :
      (w now : ℕ) (m : ManagerService) (i : WorkerInfo) (o : Option ReassignmentOffer)
      → i.reassignment_offer ≡ o
      → Only (Acquired w now m i) (elim o [
        | none ↦ ok (0, m)
        | some offer ↦
            if leb (offer.created_at + shard_release_timeout m.cfg) now
            then accept_offer order w offer m
            else ok (0, m)
      ])
  offered-Acquired w now m i none e = only (no_offer e)
  offered-Acquired w now m i (some offer) e = timed-Acquired w now m i offer e _ refl

  acquire_due_reassignments-Acquired :
      (w now : ℕ) (m : ManagerService) (i : WorkerInfo)
      → lookup w m.infos ≡ some i
      → Only (Acquired w now m i) (acquire_due_reassignments order w now m)
  unfolding acquire_due_reassignments
  acquire_due_reassignments-Acquired w now m i cell =
      rw cell (offered-Acquired w now m i i.reassignment_offer refl)

  -- On a manager in step, for any order in which a map is visited and a worker that has a cell,
  -- acquireDueReassignments returns, the workers and notifications are the same, and the manager
  -- is in step; without an offer whose time has come nothing changes, and else each offered shard
  -- has left its old owner and is with the worker, no other shard has moved, the offer is gone,
  -- and the number is that of the offered shards.
  pub acquire_due_reassignments_lem :
      ((m : Map ℕ (List Shard)) → Perm (order.offers m) m)
      → (w now : ℕ) (m : ManagerService) (i : WorkerInfo) → IsSynced m
      → lookup w m.infos ≡ some i
      → Returns
          (λ r. Settled m.workers m.closed r.1 × Acquired w now m i r)
          (acquire_due_reassignments order w now m)
  acquire_due_reassignments_lem visits w now m i v cell =
      Returns-Only_both
        (acquire_due_reassignments-Settled order visits w now m v
          (cell-IsAllocated m.infos w i cell))
        (acquire_due_reassignments-Acquired w now m i cell)
