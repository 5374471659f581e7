-- ===== src/Manager/Sharing.antt =====
-- rebalance as a whole, around its loop.
use native.Mathlib.Nat.{div-le_self}
use libvegas.Base.{
  ℕ, ◌≤◌, ◌<◌, ◌≡◌, [], some, String, arith, nat_eq, string_eq, nat_beq, nat_beq_iff, length, ◌≢◌,
  sym, ap, subst, List, ◌∷◌,
}
use mathlib.Core.List.{Perm, Mem, mem-cons, not-mem-nil}
use libvegas.Base.Run.{
  Returns, returned, Returns-then, Returns-split, Safely, safely, Safely-then, Safely-split,
}
use libvegas.Base.Int.{pos, sub_to_zero}
use libvegas.Base.Map.{Map, lookup}
use libvegas.Manager.{
  ManagerService, WorkerInfo, WorkerAssignment, RangeOrder, CloseNotification, set_info,
}
use libvegas.Manager.Rebalance.{rebalance}
use libvegas.Manager.Sync.{IsSynced, IsAllocated}
use libvegas.Manager.Keeps.{Settled, offer-IsSynced}
use libvegas.Manager.Fairness.{AreHonest, rebalance_loop_lem}
use mathlib.Core.Logic.Or
use libvegas.Messages.{Shard}
use libvegas.Manager.Stealing.{AreBacked, worker_cell, rebalance_loop-Looted}

offers-IsBacked :
    (infos : Map ℕ WorkerInfo) (offers : Map ℕ (List Shard))
    → AreBacked infos offers
    → (old : ℕ) (shards : List Shard) → Mem (old, shards) offers
    → IsAllocated infos old
offers-IsBacked infos [] h old shards k = absurd (not-mem-nil k)
offers-IsBacked infos ((first, others) ∷ rest) (h, t) old shards k =
    Or.elim (hlevel) (mem-cons.0 k) (λ e. subst (IsAllocated infos) (sym (ap (λ p. p.0) e)) h)
      (offers-IsBacked infos rest t old shards)

length-some : (id : String) (w : ℕ) (m : Map String ℕ) → lookup id m ≡ some w → length m ≢ 0
unfolding lookup
length-some id w [] h = cc h
length-some id w (e ∷ rest) h = omega arith

-- What is wanted is no more than the even share.
wanted : (ideal n k : ℕ) → ideal ≤ k → sub_to_zero ideal (pos n) ≤ k
unfolding sub_to_zero
wanted ideal n k h = omega (arith, h)

module _ (order : RangeOrder) where
  -- The offer is made if there is anything in it.
  made-Settled :
      (before : Map String ℕ) (notes : List CloseNotification) (w now : ℕ) (m : ManagerService)
      (i : WorkerInfo)
      → Settled before notes m
      → lookup w m.infos ≡ some i
      → (offers : Map ℕ (List Shard)) → AreBacked m.infos offers
      → Settled before notes (elim offers [
        | [] ↦ m
        | first ∷ rest ↦ set_info m w (record i {
          reassignment_offer = some (record { shards = first ∷ rest; created_at = now });
        })
      ])
  unfolding set_info
  made-Settled before notes w now m i s cell [] h = s
  made-Settled before notes w now m i s cell (first ∷ rest) h = record {
    synced =
        offer-IsSynced m w i (some (record { shards = first ∷ rest; created_at = now })) s.synced
          cell (offers-IsBacked m.infos (first ∷ rest) h);
    workers = s.workers;
    closed = s.closed;
  }

  pub rebalance-Settled :
      (fuel clock : ℕ) (id : String) (w now : ℕ) (m : ManagerService)
      → IsSynced m
      → lookup id m.workers ≡ some w
      → Safely (Settled m.workers m.closed) (rebalance order fuel clock w now m)
  unfolding rebalance
  rebalance-Settled fuel clock id w now m v here =
      let (i, cell) = worker_cell m id w v here in
      rw cell (
        Safely-then {P = λ ideal. Unit {0}}
          (Safely-split (nat_beq (length m.workers) 0)
            (λ empty.
              absurd (length-some id w m.workers here ((nat_beq_iff (length m.workers) 0).0 empty)))
            (λ some_left. safely tt))
          λ ideal _.
            Safely-then
              (rebalance_loop-Looted order fuel clock ideal i.worker_id
                (sub_to_zero ideal i.active_shard_count) [] m v tt)
              λ (offers, n) ((settled, up), backed).
                let (j, there) = worker_cell n id w settled.synced (rw settled.workers here) in
                rw there
                  (safely (made-Settled m.workers m.closed w now n j settled there offers backed)))

  -- On a manager in step where no worker counts more shards than it has assignments without a
  -- reassignment request, for a worker of it whose count is not negative, and with more fuel than
  -- live shards, rebalance ends; the workers and notifications are the same, and the manager is in
  -- step.
  pub rebalance_lem :
      ((m : Map String WorkerAssignment) → Perm (order.assignments m) m)
      → (fuel clock : ℕ) (id : String) (w now n : ℕ) (m : ManagerService) (i : WorkerInfo)
      → IsSynced m
      → AreHonest m
      → lookup id m.workers ≡ some w
      → lookup w m.infos ≡ some i
      → i.active_shard_count ≡ pos n
      → length m.live_shards < fuel
      → Returns (Settled m.workers m.closed) (rebalance order fuel clock w now m)
  unfolding rebalance
  rebalance_lem visits fuel clock id w now n m i v honest here cell count enough =
      rw (cell, count)
        (Returns-then {P = λ ideal. ideal ≤ length m.live_shards}
          (Returns-split (nat_beq (length m.workers) 0)
            (λ empty.
              absurd (length-some id w m.workers here ((nat_beq_iff (length m.workers) 0).0 empty)))
            (λ some_left. returned (div-le_self (length m.live_shards) (length m.workers))))
          λ ideal small.
            Returns-then
              (rebalance_loop_lem order visits fuel clock ideal i.worker_id
                (sub_to_zero ideal (pos n)) [] m v honest tt
                (omega (arith, wanted ideal n (length m.live_shards) small)))
              λ (offers, n') (((settled, up), backed), _).
                let (j, there) = worker_cell n' id w settled.synced (rw settled.workers here) in
                rw there (
                  returned
                    (made-Settled m.workers m.closed w now n' j settled there offers backed)))
