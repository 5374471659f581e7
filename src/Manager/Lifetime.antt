-- ===== src/Manager/Lifetime.antt =====
-- The handlers on any manager that its life can bring about.
use libvegas.Base.{
  nat_eq, string_eq, ◌+◌, ℕ, ◌<◌, ◌≡◌, sym, subst, Bool, true, Option, some, String, length, inl,
  inr, Option-cases,
}
use libvegas.Base.Run.{Run, Returns, Returns-weaken}
use libvegas.Base.Partial.{
  Only, only, any-Only, Only-then, Returns-Only, Returns-Only_both, Unless, Unless-weaken,
  Unless-Only,
}
use libvegas.Messages.{AssignRequest, CheckpointRequest}
use libvegas.Etcd.{Etcd, EtcdLaws, Condition}
use libvegas.Base.Map.{lookup}
use libvegas.Manager.Numbers.{has_id-lookup, same-AreOf, carries}
use libvegas.Manager.{
  WorkerInfo, WorkerAssignment, ManagerService, PopConfig, RangeOrder, ShardDiscovery,
}
use libvegas.Manager.Notes.{closed_weight}
use libvegas.Manager.Assign.{handle_assign_request}
use libvegas.Manager.Checkpoint.{ensure_checkpoint_ownership, handle_checkpoint_request}
use libvegas.Manager.Outcome.{Outcome, handle_checkpoint_request_lem}
use libvegas.Manager.Session.{Served, HasSpent, handle_assign_request_lem}
use libvegas.Manager.Held.{IsKnown}
use libvegas.Manager.Holding.{IsLawful}
use libvegas.Manager.System.{
  IsGood, assign, Reachable, next, IsConsistent, Reachable-IsConsistent,
  finish_checkpoint-IsConsistent,
}

module _ {K : Type 0} (etcd : Etcd K) (known : String → Bool) (weight : String → ℕ) where
  -- On a manager that steps have made of a new one, as in Reachable-IsConsistent, two assignments
  -- with the same id, of any workers, also of those that were released, are of the same worker and
  -- shard, and the id is below the next one that is given.
  pub Reachable-apart :
      (cfg : PopConfig) (m : ManagerService) (w u : ℕ) (i j : WorkerInfo) (s t : String)
      (a b : WorkerAssignment)
      → Reachable etcd known weight cfg m
      → lookup w m.infos ≡ some i
      → lookup u m.infos ≡ some j
      → lookup s i.assignments ≡ some a
      → lookup t j.assignments ≡ some b
      → a.id ≡ b.id
      → (w ≡ u) × (s ≡ t) × (a.id < m.term + m.next_assignment_offset)
  Reachable-apart cfg m w u i j s t a b reached cell cell' found found' same =
      let n = (Reachable-IsConsistent etcd known weight cfg m reached).ours.numbers in
      let one = same-AreOf m.infos w i cell s a.id (has_id-lookup s a i.assignments found) in
      let two = same-AreOf m.infos u j cell' t b.id (has_id-lookup t b j.assignments found') in
      let (here, named) =
        n.apart w u s t a.id one (subst (λ x. carries m.infos u t x ≡ true) (sym same) two) in
      (here, named, n.issued w s a.id one)

  -- On a manager that steps have made of a new one (it takes office under a term that is not below
  -- its last one, leaves it, an assign request returns, with fuel enough for the loops that end,
  -- or a checkpoint is recorded, in any order, and the discovery, the order of maps and the store
  -- may be others at each step, but the discovery answers for the shards of one lineage), with
  -- more fuel than workers and than the weight of the notifications, handleAssignRequest neither
  -- panics nor exits the process; out of fuel it runs only in the loop of rebalance, on the very
  -- manager that the steps before it left, for a worker that asks for shards, and else it returns
  -- as in handle_assign_request_lem and leaves a manager with the invariant of
  -- Reachable-IsConsistent.
  pub handle_assign_request-Reachable :
      (cfg : PopConfig) (m : ManagerService) (order : RangeOrder) (discovery : ShardDiscovery)
      (fuel now clock : ℕ) (request : AssignRequest)
      → Reachable etcd known weight cfg m
      → (lawful : IsLawful order) → IsGood etcd known weight discovery
      → length m.workers < fuel
      → closed_weight weight m.closed < fuel
      → Unless
          (HasSpent order lawful.offers discovery fuel clock now request m)
          (λ x.
            IsConsistent etcd known weight x.1
            × Served order lawful.offers discovery (IsKnown known) request m x)
          (handle_assign_request order discovery fuel now clock request m)
  handle_assign_request-Reachable cfg m order discovery fuel now clock request reached lawful good
        enough light =
      let h = Reachable-IsConsistent etcd known weight cfg m reached in
      Unless-weaken
        (Unless-Only
          (handle_assign_request_lem order lawful.offers discovery (IsKnown known) weight
            good.lineage fuel clock now request m h.synced h.ours.closed enough light)
          (any-Only (handle_assign_request order discovery fuel now clock request m)))
        (λ spent. spent)
        λ (r, n) (x, done). (
          Reachable-IsConsistent etcd known weight cfg n (
              next reached
                (assign order discovery fuel now clock request lawful good enough light done)),
          x,
        )

  module _ (read : K → String → Option String) (laws : EtcdLaws etcd read) where
    commit-IsConsistent :
        (between : Condition → K → K) (others : ManagerService → Run ManagerService)
        (request : CheckpointRequest) (s : K) (m : ManagerService)
        → IsConsistent etcd known weight m
        → Only (IsConsistent etcd known weight) (others m)
        → Only
            (λ (r, s', n). IsConsistent etcd known weight n)
            (handle_checkpoint_request etcd between others request (s, m))
    unfolding handle_checkpoint_request
    commit-IsConsistent between others request s m h meanwhile =
        Only-then (any-Only (ensure_checkpoint_ownership request m)) λ refused _.
          elim (Option-cases refused) [
            | inr (r, e) ↦ rw e (only h)
            | inl e ↦ rw e (
                Only-then meanwhile
                  λ m' h'. finish_checkpoint-IsConsistent etcd known weight request m' _ h')
          ]

    -- On a manager that steps have made of a new one, as in Reachable-IsConsistent, when the store
    -- has the laws of transactions and what other handlers do to the manager meanwhile returns and
    -- leaves such a manager, whatever is written to the store between the transactions,
    -- handleCheckpointRequest returns with one of the outcomes of handle_checkpoint_request_lem
    -- and leaves a manager with the invariant of Reachable-IsConsistent.
    pub handle_checkpoint_request-Reachable :
        (cfg : PopConfig) (between : Condition → K → K)
        (others : ManagerService → Run ManagerService) (request : CheckpointRequest) (s : K)
        (m : ManagerService)
        → Reachable etcd known weight cfg m
        → Returns (Reachable etcd known weight cfg) (others m)
        → Returns
            (λ (r, s', n).
              IsConsistent etcd known weight n
              × Outcome etcd read laws between others request s m (r, s', n))
            (handle_checkpoint_request etcd between others request (s, m))
    handle_checkpoint_request-Reachable cfg between others request s m reached meanwhile =
        let h = Reachable-IsConsistent etcd known weight cfg m reached in
        let others_keep =
          Returns-weaken meanwhile
            λ n there. Reachable-IsConsistent etcd known weight cfg n there in
        Returns-weaken
          (Returns-Only_both
            (handle_checkpoint_request_lem etcd read laws between others request s m h.synced
              (Returns-weaken others_keep λ n there. there.synced))
            (commit-IsConsistent between others request s m h (Returns-Only others_keep)))
          λ x (outcome, there). (there, outcome)
