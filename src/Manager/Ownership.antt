-- ===== src/Manager/Ownership.antt =====
-- handleCheckpointRequest: who may checkpoint, and what is recorded.
use libvegas.Base.{
  ℕ, Bool, true, false, Option, none, some, ◌≡◌, ◌≢◌, refl, ◌∙◌, if◌then◌else◌, ◌==◌, ◌∷◌, ◌++◌, [],
  subst, ◌⊎◌, inl, inr, String, nat_beq, nat_beq_iff, nat_eq, string_eq, Bool-cases, Option-cases,
}
use libvegas.Base.Run.{Returns, returned, Returns-then}
use libvegas.Base.Map.{lookup, lookup-insert}
use libvegas.Messages.{CheckpointRequest, CheckpointResponse}
use libvegas.Manager.{ManagerService, WorkerInfo, WorkerAssignment}
use libvegas.Manager.Sync.{
  IsSynced, IsNoted, IsAllocated, append-IsNoted, cell-IsAllocated, some-value, standing-info,
  checkpointed-IsSynced,
}
use libvegas.Manager.Checkpoint.{find_owned, record_checkpoint, record_owned, changed_response}

-- The worker of the request holds its shard under its assignment id.
abbrev pub IsOwner : ManagerService → CheckpointRequest → Type 0
IsOwner m request =
    (w : ℕ) × (i : WorkerInfo) × (a : WorkerAssignment) × (lookup request.worker_id m.workers
      ≡ some w)
    × (lookup w m.infos ≡ some i)
    × (lookup request.shard_id i.assignments ≡ some a)
    × (a.id ≡ request.assignment_id)

-- The worker of the request holds its shard by the assignment `a` that it names.
abbrev pub IsOwned : ManagerService → CheckpointRequest → ℕ → WorkerInfo → WorkerAssignment → Type 0
IsOwned m request w i a =
    (lookup request.worker_id m.workers ≡ some w)
    × (lookup w m.infos ≡ some i)
    × (lookup request.shard_id i.assignments ≡ some a)
    × (a.id ≡ request.assignment_id)

-- What `find_owned` says of the ownership.
abbrev pub Owned :
    ManagerService → CheckpointRequest → Option (ℕ × WorkerInfo × WorkerAssignment) → Type 0
Owned m request none = IsOwner m request → ⊥
Owned m request (some (w, i, a)) = (lookup w m.infos ≡ some i) × IsOwned m request w i a

owned_elsewhere : (n m k : ℕ) → n ≡ m → nat_beq n k ≡ false → m ≢ k
owned_elsewhere n m k same other e = cc (other, (nat_beq_iff n k).1 (same ∙ e))

pub find_owned-Owned :
    (request : CheckpointRequest) (m : ManagerService)
    → IsSynced m
    → Returns (Owned m request) (find_owned request m)
unfolding find_owned
find_owned-Owned request m v = elim (Option-cases (lookup request.worker_id m.workers)) [
  | inl e ↦ rw (e, find_owned) (returned λ (w, i, a, h, h', h'', k). cc (e, h))
  | inr (w, e) ↦
      let (t, o, s, p) = v.listed request.worker_id w e in
      let (i, cell, _, _) = standing-info m.infos w t o s in
      elim (Option-cases (lookup request.shard_id i.assignments)) [
        | inl lacks ↦
            rw (e, find_owned)
              (rw cell (
                rw lacks (returned λ (w', i', a', h, h', h'', _). cc (e, h, cell, h', lacks, h''))))
        | inr (a, found) ↦ elim (Bool-cases (nat_beq a.id request.assignment_id)) [
          | inl same ↦
              rw (e, find_owned)
                (rw cell (
                  rw (found, same)
                    (returned
                      (cell, (e, cell, found, (nat_beq_iff a.id request.assignment_id).0 same)))))
          | inr other ↦
              rw (e, find_owned)
                (rw cell (
                  rw (found, other)
                    (returned λ (w', i', a', h, h', h'', k).
                      owned_elsewhere a.id a'.id request.assignment_id
                        (cc (e, h, cell, h', found, h'')) other k)))
        ]
      ]
]

-- The sequence number is the checkpoint of the shard, a closed shard is noted with its worker `w`,
-- and all else is as it was.
pub record IsRecorded (request : CheckpointRequest) (w : ℕ) (m n : ManagerService) : Type 0 where
  pub checkpoints :
      (s : String)
      → lookup s n.checkpoints
        ≡ (if request.shard_id == s then some request.sequence_number else lookup s m.checkpoints)
  pub closed : n.closed ≡ (
      if request.sequence_number == "CLOSED"
      then m.closed ++ record { shard_id = request.shard_id; worker = some w } ∷ []
      else m.closed)
  pub rest : n ≡ record m { checkpoints = n.checkpoints; closed = n.closed }

-- Is the assignment wanted by another worker?
abbrev pub is_wanted : WorkerAssignment → Bool
is_wanted a = elim a.reassignment_request [ none ↦ false | some _ ↦ true ]

-- The ownership is gone and nothing changes, or the checkpoint is recorded, and the response says
-- whether the shard is wanted by another worker.
abbrev pub Recorded :
    CheckpointRequest → ManagerService → CheckpointResponse × ManagerService → Type 0
Recorded request m (r, n) =
    ((r ≡ changed_response true) × (n ≡ m) × ¬ IsOwner m request)
    ⊎ ((w : ℕ) × (i : WorkerInfo) × (a : WorkerAssignment) × IsOwned m request w i a
        × (r ≡ changed_response (is_wanted a))
        × IsSynced n
        × IsRecorded request w m n)

note-IsNoted :
    (m : ManagerService) (request : CheckpointRequest) (w : ℕ) (b : Bool)
    → IsNoted m.infos m.closed
    → IsAllocated m.infos w
    → IsNoted m.infos (
        if b
        then m.closed ++ record { shard_id = request.shard_id; worker = some w } ∷ []
        else m.closed)
note-IsNoted m request w true h here =
    append-IsNoted m.infos m.closed _ h λ u e. subst (IsAllocated m.infos) (some-value e) here
note-IsNoted m request w false h here = h

record_owned-Recorded :
    (request : CheckpointRequest) (m : ManagerService)
    → IsSynced m
    → (owned : Option (ℕ × WorkerInfo × WorkerAssignment)) → Owned m request owned
    → Recorded request m (record_owned request m owned)
unfolding record_owned
record_owned-Recorded request m v none h = inl (refl, refl, h)
record_owned-Recorded request m v (some (w, i, a)) (cell, h) =
    let synced = checkpointed-IsSynced m _ _ v (
      note-IsNoted m request w (request.sequence_number == "CLOSED") v.noted
        (cell-IsAllocated m.infos w i cell)) in
    let done : IsRecorded request w m (record_owned request m (some (w, i, a))).1 = record {
      checkpoints = λ s. lookup-insert request.shard_id s request.sequence_number m.checkpoints;
      closed = refl;
      rest = refl;
    } in
    elim (Option-cases a.reassignment_request) [
      | inl kept ↦ inr (w, i, a, h, rw kept refl, synced, done)
      | inr (request', wanted) ↦ inr (w, i, a, h, rw wanted refl, synced, done)
    ]

pub record_checkpoint-Recorded :
    (request : CheckpointRequest) (m : ManagerService)
    → IsSynced m
    → Returns (Recorded request m) (record_checkpoint request m)
unfolding record_checkpoint
record_checkpoint-Recorded request m v =
    Returns-then (find_owned-Owned request m v)
      λ owned h. returned (record_owned-Recorded request m v owned h)
