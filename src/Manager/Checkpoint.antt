-- ===== src/Manager/Checkpoint.antt =====
-- handleCheckpointRequest and ensureCheckpointOwnership.
use Prim.Native.String.{◌++◌ as append}
use libvegas.Base.{
  ℕ, zero, suc, ◌/◌, ◌%◌, Bool, true, false, List, [], ◌∷◌, ◌++◌, Option, none, some, String,
  nat_beq, if◌then◌else◌, nat_eq, string_eq, ◌==◌,
}
use libvegas.Base.Text.{digit}
use libvegas.Base.Run.{Run, ok, ◌>>=◌}
use libvegas.Base.Map.{lookup, insert}
use libvegas.Messages.{CheckpointRequest, CheckpointResponse}
use libvegas.Etcd.{Etcd, Condition, absent, equal, less}
use libvegas.Manager.{ManagerService, WorkerInfo, WorkerAssignment, info, ensure_in_service}

-- the last `width` decimal digits
unfoldable pub zero_padded : ℕ → ℕ → String
zero_padded zero n = ""
zero_padded (suc width) n = append (zero_padded width (n / 10)) (digit (n % 10))

-- fmt.Sprintf("%020d", id), for an id below 10 ^ 20
abbrev pub fencing_token : ℕ → String
fencing_token id = zero_padded 20 id

unfoldable pub assignment_key : String → String
assignment_key shard = append "assignments/" (append shard "-assignment-id")

unfoldable pub checkpoint_key : String → String
checkpoint_key shard = append "checkpoints/" shard

-- The assignment that the request names, if the worker has it under this id.
unfoldable pub find_owned :
    CheckpointRequest → ManagerService → Run (Option (ℕ × WorkerInfo × WorkerAssignment))
find_owned request m = elim (lookup request.worker_id m.workers) [
  | none ↦ ok none
  | some w ↦ do
    i ← info m w
    ok (elim (lookup request.shard_id i.assignments) [
      | none ↦ none
      | some a ↦ if nat_beq a.id request.assignment_id then some (w, i, a) else none
    ])
]

abbrev pub changed_response : Bool → CheckpointResponse
changed_response changed = record {
  status = record { not_in_service = false };
  ownership_changed = changed;
}

abbrev pub refusal : Option (ℕ × WorkerInfo × WorkerAssignment) → Option CheckpointResponse
refusal none = some (changed_response true)
refusal (some _) = none

unfoldable pub ensure_checkpoint_ownership :
    CheckpointRequest → ManagerService → Run (Option CheckpointResponse)
unfolding find_owned ensure_in_service
ensure_checkpoint_ownership request m =
    let status = ensure_in_service m in
    if status.not_in_service
    then ok (some (record { status = status; ownership_changed = false }))
    else (find_owned request m >>= λ owned. ok (refusal owned))

unfoldable pub record_owned :
    CheckpointRequest
    → ManagerService
    → Option (ℕ × WorkerInfo × WorkerAssignment)
    → CheckpointResponse × ManagerService
record_owned request m none = (changed_response true, m)
record_owned request m (some (w, i, a)) = (
  elim a.reassignment_request [ none ↦ changed_response false | some _ ↦ changed_response true ],
  record m {
    checkpoints = insert request.shard_id request.sequence_number m.checkpoints;
    closed =
        if request.sequence_number == "CLOSED"
        then m.closed ++ record { shard_id = request.shard_id; worker = some w } ∷ []
        else m.closed;
  },
)

-- The second critical section: the local state follows the store.
unfoldable pub record_checkpoint :
    CheckpointRequest → ManagerService → Run (CheckpointResponse × ManagerService)
unfolding find_owned record_owned
record_checkpoint request m = find_owned request m >>= λ owned. ok (record_owned request m owned)

module _ {K : Type 0} (etcd : Etcd K) where
  -- One transaction for each condition, until one succeeds or a call fails. `between` is what other
  -- handlers and other nodes do to the store before each of them.
  unfoldable pub try_conditions :
      (Condition → K → K) → List Condition → List (String × String) → K → Option Bool × K
  try_conditions between [] puts s = (some false, s)
  try_conditions between (c ∷ conds) puts s =
      let tried = etcd.commit c puts (between c s) in
      let next = try_conditions between conds puts tried.1 in
      elim tried.0 [ none ↦ tried | some succeeded ↦ if succeeded then tried else next ]

  abbrev pub fencing_conditions : CheckpointRequest → List Condition
  fencing_conditions request =
      let key = assignment_key request.shard_id in
      let token = fencing_token request.assignment_id in
      equal key token ∷ absent key ∷ less key token ∷ []

  abbrev pub checkpoint_puts : CheckpointRequest → List (String × String)
  checkpoint_puts request =
      (assignment_key request.shard_id, fencing_token request.assignment_id)
      ∷ (checkpoint_key request.shard_id, request.sequence_number)
      ∷ []

  -- What follows the transactions. `none` is the error that the handler returns when one fails.
  unfoldable pub finish_checkpoint :
      CheckpointRequest
      → ManagerService
      → Option Bool × K
      → Run (Option CheckpointResponse × K × ManagerService)
  unfolding record_checkpoint
  finish_checkpoint request m (none, s) = ok (none, s, m)
  finish_checkpoint request m (some false, s) = ok (some (changed_response true), s, m)
  finish_checkpoint request m (some true, s) =
      record_checkpoint request m >>= λ (response, m'). ok (some response, s, m')

  -- The lock is not held during the transactions: meanwhile other handlers do `others` to the
  -- manager, and they and other nodes do `between` to the store.
  unfoldable pub handle_checkpoint_request :
      (Condition → K → K)
      → (ManagerService → Run ManagerService)
      → CheckpointRequest
      → K × ManagerService
      → Run (Option CheckpointResponse × K × ManagerService)
  unfolding ensure_checkpoint_ownership try_conditions finish_checkpoint
  handle_checkpoint_request between others request (s, m) = do
    refused ← ensure_checkpoint_ownership request m
    let commit : Run (Option CheckpointResponse × K × ManagerService) = do
      m' ← others m
      finish_checkpoint request m'
          (try_conditions between (fencing_conditions request) (checkpoint_puts request) s)
    elim refused [ some response ↦ ok (some response, s, m) | none ↦ commit ]
