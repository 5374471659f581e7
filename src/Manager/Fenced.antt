-- ===== src/Manager/Fenced.antt =====
-- Owners of a shard before and after it was given anew.
use libvegas.Base.{ℕ, ◌+◌, ◌≤◌, ◌≡◌, Bool, Option, some, String, arith, nat_eq, string_eq}
use libvegas.Base.Map.{lookup}
use libvegas.Messages.{CheckpointRequest, CheckpointResponse}
use libvegas.Base.Run.{Run, ok}
use libvegas.Etcd.{Etcd, EtcdLaws, Condition}
use libvegas.Manager.{ManagerService, WorkerInfo, WorkerAssignment, PopConfig}
use libvegas.Manager.Checkpoint.{
  assignment_key, checkpoint_key, fencing_token, handle_checkpoint_request,
}
use libvegas.Manager.Numbers.{has_id-lookup, same-AreOf}
use libvegas.Manager.System.{Reachable, Reachable-IsConsistent}
use libvegas.Manager.Saving.{IsPrintable, Saves, none_left, one_more}
use libvegas.Manager.Stale.{IsStale, handle_checkpoint_request-IsStale}

module _ {K : Type 0} (etcd : Etcd K) (read : K → String → Option String)
    (laws : EtcdLaws etcd read) where
  Saves-weaken :
      {P Q : CheckpointRequest → Type 0} {s s' : K}
      → ((request : CheckpointRequest) → P request → Q request)
      → Saves etcd read laws P s s'
      → Saves etcd read laws Q s s'
  Saves-weaken up none_left = none_left
  Saves-weaken up (one_more request c fits allowed attempt rest) =
      one_more request c fits (up request allowed) attempt (Saves-weaken up rest)

  -- A request for the shard is under the id of an assignment that the manager has.
  abbrev pub IsEarlier : ManagerService → String → CheckpointRequest → Type 0
  IsEarlier m shard request =
      request.shard_id ≡ shard
      → (w : ℕ) × (i : WorkerInfo) × (s : String) × (a : WorkerAssignment) × (lookup w m.infos
          ≡ some i)
        × (lookup s i.assignments ≡ some a)
        × (a.id ≡ request.assignment_id)

  module _ (known : String → Bool) (weight : String → ℕ) where
    earlier-IsStale :
        (cfg : PopConfig) (m : ManagerService) (shard : String) (t : ℕ)
        → Reachable etcd known weight cfg m
        → m.term + m.next_assignment_offset ≤ t
        → (request : CheckpointRequest) → IsEarlier m shard request
        → IsStale etcd read laws shard t request
    earlier-IsStale cfg m shard t reached later request earlier same =
        let n = (Reachable-IsConsistent etcd known weight cfg m reached).ours.numbers in
        let (w, i, k, a, cell, found, named) = earlier same in
        let below =
          n.issued w k a.id
            (same-AreOf m.infos w i cell k a.id (has_id-lookup k a i.assignments found)) in
        omega (arith, below, named, later)

    -- For the assignments of a manager that steps have made of a new one, as in
    -- Reachable-IsConsistent, and a store with the laws of transactions in which the fencing token
    -- of a shard is that of the next id or of a later one below 10 ^ 20: a checkpoint request
    -- under an id below 10 ^ 20 that returns, on any node, leaves the token and the checkpoint of
    -- the shard as they were, when what is done to the store between its transactions is
    -- transactions of checkpoint requests, and every request for the shard is under the id of one
    -- of those assignments.
    pub Reachable-IsEarlier :
        (cfg : PopConfig) (m : ManagerService) (between : Condition → K → K)
        (others : ManagerService → Run ManagerService) (request : CheckpointRequest) (s s' : K)
        (o o' : ManagerService) (r : Option CheckpointResponse) (shard : String) (t : ℕ)
        → Reachable etcd known weight cfg m
        → m.term + m.next_assignment_offset ≤ t
        → IsPrintable t
        → read s (assignment_key shard) ≡ some (fencing_token t)
        → ((c : Condition) (u : K) → Saves etcd read laws (IsEarlier m shard) u (between c u))
        → IsPrintable request.assignment_id
        → IsEarlier m shard request
        → handle_checkpoint_request etcd between others request (s, o) ≡ ok (r, s', o')
        → (read s' (assignment_key shard) ≡ read s (assignment_key shard))
          × (read s' (checkpoint_key shard) ≡ read s (checkpoint_key shard))
    Reachable-IsEarlier cfg m between others request s s' o o' r shard t reached later ht token
          meanwhile fits earlier done =
        let stale = earlier-IsStale cfg m shard t reached later in
        handle_checkpoint_request-IsStale etcd read laws between others request s s' o o' r shard t
          (λ c u. Saves-weaken stale (meanwhile c u)) fits (stale request earlier) ht token done
