-- ===== src/Manager/Outcome.antt =====
-- handleCheckpointRequest: the store and the manager after a checkpoint.
use libvegas.Base.{
  ℕ, Bool, true, false, Option, none, some, String, ◌≡◌, refl, if◌then◌else◌, nat_eq, string_eq,
}
use libvegas.Base.Run.{Run, ok, ◌>>=◌, Returns, returned, Returns-then}
use libvegas.Messages.{Status, CheckpointRequest, CheckpointResponse}
use libvegas.Etcd.{Etcd, EtcdLaws, Condition}
use libvegas.Manager.{ManagerService, WorkerInfo, WorkerAssignment, ensure_in_service}
use libvegas.Manager.Sync.{IsSynced}
use libvegas.Manager.Checkpoint.{
  find_owned, ensure_checkpoint_ownership, try_conditions, fencing_conditions, checkpoint_puts,
  handle_checkpoint_request, finish_checkpoint, refusal, changed_response,
}
use libvegas.Manager.Ownership.{
  IsOwner, Owned, find_owned-Owned, Recorded, record_checkpoint-Recorded,
}
use libvegas.Manager.Fencing.{Tried, try_conditions-Tried}
use libvegas.Base.Partial.{any-Only, Returns-Only_both}

module _ {K : Type 0} (etcd : Etcd K) (read : K → String → Option String)
    (laws : EtcdLaws etcd read) where
  -- How the transactions of a request go, in order: at the same token, at none, at a lower one.
  abbrev pub Attempted : (Condition → K → K) → CheckpointRequest → K → Option Bool × K → Type 0
  Attempted between request =
      Tried etcd read laws between (checkpoint_puts etcd request) (fencing_conditions etcd request)

  -- How a checkpoint can end, with the store and the manager that it leaves.
  pub data Outcome (between : Condition → K → K) (others : ManagerService → Run ManagerService)
      (request : CheckpointRequest) (s : K) (m : ManagerService)
      : Option CheckpointResponse × K × ManagerService → Type 0 where
    out_of_service :
        m.in_service ≡ false
        → Outcome between others request s m (
          some (record { status = record { not_in_service = true }; ownership_changed = false }),
          s,
          m,
        )
    not_owner :
        m.in_service ≡ true
        → ¬ IsOwner m request
        → Outcome between others request s m (some (changed_response true), s, m)
    failed :
        {s' : K} {m' : ManagerService}
        → IsOwner m request
        → Attempted between request s (none, s')
        → others m ≡ ok m'
        → Outcome between others request s m (none, s', m')
    fenced :
        {s' : K} {m' : ManagerService}
        → IsOwner m request
        → Attempted between request s (some false, s')
        → others m ≡ ok m'
        → Outcome between others request s m (some (changed_response true), s', m')
    committed :
        {s' : K} {m' n : ManagerService} {r : CheckpointResponse}
        → IsOwner m request
        → Attempted between request s (some true, s')
        → others m ≡ ok m'
        → Recorded request m' (r, n)
        → Outcome between others request s m (some r, s', n)

  abbrev Answer :
      (Condition → K → K)
      → (ManagerService → Run ManagerService)
      → CheckpointRequest
      → K
      → ManagerService
      → Option CheckpointResponse
      → Type 0
  Answer between others request s m none = IsOwner m request
  Answer between others request s m (some r) = Outcome between others request s m (some r, s, m)

  refusal-Answer :
      (between : Condition → K → K) (others : ManagerService → Run ManagerService)
      (request : CheckpointRequest) (s : K) (m : ManagerService)
      → m.in_service ≡ true
      → (owned : Option (ℕ × WorkerInfo × WorkerAssignment)) → Owned m request owned
      → Answer between others request s m (refusal owned)
  refusal-Answer between others request s m serving none h = not_owner serving h
  refusal-Answer between others request s m serving (some (w, i, a)) (cell, owner) =
      let (here, stands, held, named) = owner in (w, i, a, here, stands, held, named)

  -- The check of ownership, on what it reads of `in_service`.
  unfoldable checked : CheckpointRequest → ManagerService → Bool → Run (Option CheckpointResponse)
  checked request m b =
      let status : Status =
        if b then record { not_in_service = false } else record { not_in_service = true } in
      if status.not_in_service
      then ok (some (record { status = status; ownership_changed = false }))
      else (find_owned request m >>= λ owned. ok (refusal owned))

  checked-Answer :
      (between : Condition → K → K) (others : ManagerService → Run ManagerService)
      (request : CheckpointRequest) (s : K) (m : ManagerService)
      → IsSynced m
      → (b : Bool) → m.in_service ≡ b
      → Returns (Answer between others request s m) (checked request m b)
  unfolding checked
  checked-Answer between others request s m v true serving =
      Returns-then (find_owned-Owned request m v)
        λ owned h. returned (refusal-Answer between others request s m serving owned h)
  checked-Answer between others request s m v false out = returned (out_of_service out)

  ensure_checkpoint_ownership-Answer :
      (between : Condition → K → K) (others : ManagerService → Run ManagerService)
      (request : CheckpointRequest) (s : K) (m : ManagerService)
      → IsSynced m
      → Returns (Answer between others request s m) (ensure_checkpoint_ownership request m)
  unfolding ensure_checkpoint_ownership ensure_in_service checked
  ensure_checkpoint_ownership-Answer between others request s m v =
      checked-Answer between others request s m v m.in_service refl

  finish_checkpoint-Outcome :
      (between : Condition → K → K) (others : ManagerService → Run ManagerService)
      (request : CheckpointRequest) (s : K) (m m' : ManagerService) (tried : Option Bool × K)
      → IsOwner m request
      → IsSynced m'
      → others m ≡ ok m'
      → Attempted between request s tried
      → Returns (Outcome between others request s m) (finish_checkpoint etcd request m' tried)
  unfolding finish_checkpoint
  finish_checkpoint-Outcome between others request s m m' (none, s') owner v e h =
      returned (failed owner h e)
  finish_checkpoint-Outcome between others request s m m' (some false, s') owner v e h =
      returned (fenced owner h e)
  finish_checkpoint-Outcome between others request s m m' (some true, s') owner v e h =
      Returns-then (record_checkpoint-Recorded request m' v)
        λ r done. returned (committed owner h e done)

  commit-Outcome :
      (between : Condition → K → K) (others : ManagerService → Run ManagerService)
      (request : CheckpointRequest) (s : K) (m : ManagerService)
      → Returns IsSynced (others m)
      → (refused : Option CheckpointResponse) → Answer between others request s m refused
      → Returns (Outcome between others request s m) (elim refused [
        | some response ↦ ok (some response, s, m)
        | none ↦ others m >>= λ m'. finish_checkpoint etcd request m' (
            try_conditions etcd between
              (fencing_conditions etcd request)
              (checkpoint_puts etcd request)
              s)
      ])
  commit-Outcome between others request s m meanwhile none owner =
      Returns-then (Returns-Only_both meanwhile (any-Only (others m))) λ m' (v', e).
        finish_checkpoint-Outcome between others request s m m' _ owner v' e (
          try_conditions-Tried etcd read laws between (checkpoint_puts etcd request)
            (fencing_conditions etcd request) s)
  commit-Outcome between others request s m meanwhile (some response) h = returned h

  -- On a manager in step, when the store has the laws of transactions and what other handlers do
  -- to the manager meanwhile returns a manager in step, whatever is written to the store between
  -- the transactions, handleCheckpointRequest returns with one of five outcomes: not in service or
  -- not the owner, and nothing changed; a transaction failed or none was applied, and the manager
  -- is as the other handlers left it; or the first transaction whose condition held, on the store
  -- at its turn, wrote both puts, and then either the worker owns the shard no more and the
  -- manager is as the others left it, or the sequence number is the checkpoint of the shard, the
  -- other checkpoints are as they were, a closed shard is noted, and the response says whether the
  -- shard is wanted.
  pub handle_checkpoint_request_lem :
      (between : Condition → K → K) (others : ManagerService → Run ManagerService)
      (request : CheckpointRequest) (s : K) (m : ManagerService)
      → IsSynced m
      → Returns IsSynced (others m)
      → Returns
          (Outcome between others request s m)
          (handle_checkpoint_request etcd between others request (s, m))
  unfolding handle_checkpoint_request
  handle_checkpoint_request_lem between others request s m v meanwhile =
      Returns-then (ensure_checkpoint_ownership-Answer between others request s m v)
        λ refused h. commit-Outcome between others request s m meanwhile refused h
