-- ===== src/Manager/Stale.antt =====
-- Checkpoints of several owners of a shard, on any nodes: what the fencing token keeps out.
use libvegas.Base.{
  ℕ, ◌≤◌, ◌<◌, ◌≡◌, refl, sym, ◌∙◌, ap, Option, some, String, string_eq, ◌==◌, inl, inr, Bool-cases,
  arith,
}
use native.Mathlib.Decide.{dec_lt}
use libvegas.Base.Map.{beq_eq, beq_ne}
use libvegas.Messages.{CheckpointRequest, CheckpointResponse}
use libvegas.Base.Run.{Run, ok}
use libvegas.Manager.{ManagerService}
use libvegas.Etcd.{Etcd, EtcdLaws, Condition}
use libvegas.Manager.Checkpoint.{
  assignment_key, checkpoint_key, fencing_token, handle_checkpoint_request,
}
use libvegas.Manager.Keys.{wrote_token, other_token, other_checkpoint}
use libvegas.Manager.Interleaving.{handled-Saves}
use libvegas.Manager.Saving.{
  IsPrintable, no_condition, Effect, Saves, none_left, one_more, commit-Effect,
}

module _ {K : Type 0} (etcd : Etcd K) (read : K → String → Option String)
    (laws : EtcdLaws etcd read) where
  -- A step of an owner that is not below the token.
  rising :
      (s s' : K) (shard : String) (t : ℕ) (request : CheckpointRequest)
      → IsPrintable t
      → IsPrintable request.assignment_id
      → read s (assignment_key shard) ≡ some (fencing_token t)
      → Effect etcd read laws request s s'
      → (t' : ℕ) × (t ≤ t')
        × IsPrintable t'
        × (read s' (assignment_key shard) ≡ some (fencing_token t'))
  rising s s' shard t request ht hid token (inl same) =
      (t, omega arith, ht, same (assignment_key shard) ∙ token)
  rising s s' shard t request ht hid token (inr (c, attempt, held, puts)) =
      elim (Bool-cases (shard == request.shard_id)) [
        | inr differ ↦
            let apart = beq_ne shard request.shard_id differ in
            (
              t,
              omega arith,
              ht,
              puts (assignment_key shard) ∙ other_token etcd request (read s) shard apart ∙ token,
            )
        | inl same ↦
            let one : shard ≡ request.shard_id = beq_eq shard request.shard_id same in
            let wrote : read s' (assignment_key shard)
                ≡ some (fencing_token request.assignment_id) =
              ap (λ k. read s' (assignment_key k)) one
              ∙ puts (assignment_key request.shard_id)
              ∙ wrote_token etcd request (read s) in
            let token' : read s (assignment_key request.shard_id) ≡ some (fencing_token t) =
              sym (ap (λ k. read s (assignment_key k)) one) ∙ token in
            elim (dec_lt request.assignment_id t) [
              | yes less ↦
                  absurd (
                    cc
                      (sym held ∙ no_condition etcd read laws s t request ht less token' c attempt))
              | no above ↦ (request.assignment_id, omega arith, hid, wrote)
            ]
      ]

  Saves-rising :
      {Allowed : CheckpointRequest → Type 0} (shard : String) (t : ℕ) (s s' : K)
      → IsPrintable t
      → read s (assignment_key shard) ≡ some (fencing_token t)
      → Saves etcd read laws Allowed s s'
      → (t' : ℕ) × (t ≤ t')
        × IsPrintable t'
        × (read s' (assignment_key shard) ≡ some (fencing_token t'))
  Saves-rising shard t s s' ht token none_left = (t, omega arith, ht, token)
  Saves-rising shard t s s'' ht token (one_more request c hid allowed attempt rest) =
      let (u, low, hu, token') =
        rising s _ shard t request ht hid token
          (commit-Effect etcd read laws request c s attempt) in
      let (w, low', hw, token'') = Saves-rising shard u _ s'' hu token' rest in
      (w, omega arith, hw, token'')

  -- When the store has the laws of transactions, also of those that fail, and the fencing token of
  -- a shard is that of an id below 10 ^ 20, then after a checkpoint request that returns, with an
  -- answer or an error, it is that of the same or a greater id, when what is done to the store
  -- between its transactions is transactions of checkpoint requests, of any nodes and in any
  -- order, and all ids are below 10 ^ 20.
  pub handle_checkpoint_request-rising :
      (between : Condition → K → K) (others : ManagerService → Run ManagerService)
      (request : CheckpointRequest) (s s' : K) (m m' : ManagerService)
      (r : Option CheckpointResponse) (t : ℕ)
      → ((c : Condition) (u : K) → Saves etcd read laws (λ _. Unit) u (between c u))
      → IsPrintable request.assignment_id
      → IsPrintable t
      → (shard : String) → read s (assignment_key shard) ≡ some (fencing_token t)
      → handle_checkpoint_request etcd between others request (s, m) ≡ ok (r, s', m')
      → (t' : ℕ) × (t ≤ t')
        × IsPrintable t'
        × (read s' (assignment_key shard) ≡ some (fencing_token t'))
  handle_checkpoint_request-rising between others request s s' m m' r t meanwhile fits ht shard
        token done =
      Saves-rising shard t s s' ht token (
        handled-Saves etcd read laws (λ _. Unit) between meanwhile request fits tt others s s' m m'
          r done)

  -- No request for the shard is under the id or a later one.
  abbrev pub IsStale : String → ℕ → CheckpointRequest → Type 0
  IsStale shard t request = request.shard_id ≡ shard → request.assignment_id < t

  kept :
      (s s' : K) (shard : String) (t : ℕ) (request : CheckpointRequest)
      → IsPrintable t
      → read s (assignment_key shard) ≡ some (fencing_token t)
      → IsStale shard t request
      → Effect etcd read laws request s s'
      → (read s' (assignment_key shard) ≡ read s (assignment_key shard))
        × (read s' (checkpoint_key shard) ≡ read s (checkpoint_key shard))
  kept s s' shard t request ht token stale (inl same) =
      (same (assignment_key shard), same (checkpoint_key shard))
  kept s s' shard t request ht token stale (inr (c, attempt, held, puts)) =
      elim (Bool-cases (shard == request.shard_id)) [
        | inr differ ↦
            let apart = beq_ne shard request.shard_id differ in
            (
              puts (assignment_key shard) ∙ other_token etcd request (read s) shard apart,
              puts (checkpoint_key shard) ∙ other_checkpoint etcd request (read s) shard apart,
            )
        | inl same ↦
            let one : shard ≡ request.shard_id = beq_eq shard request.shard_id same in
            let token' : read s (assignment_key request.shard_id) ≡ some (fencing_token t) =
              sym (ap (λ k. read s (assignment_key k)) one) ∙ token in
            absurd (
              cc (
                sym held
                ∙ no_condition etcd read laws s t request ht (stale (sym one)) token' c attempt))
      ]

  pub Saves-IsStale :
      (shard : String) (t : ℕ) (s s' : K)
      → IsPrintable t
      → read s (assignment_key shard) ≡ some (fencing_token t)
      → Saves etcd read laws (IsStale shard t) s s'
      → (read s' (assignment_key shard) ≡ read s (assignment_key shard))
        × (read s' (checkpoint_key shard) ≡ read s (checkpoint_key shard))
  Saves-IsStale shard t s s' ht token none_left = (refl, refl)
  Saves-IsStale shard t s s'' ht token (one_more request c hid stale attempt rest) =
      let (same, same') =
        kept s _ shard t request ht token stale
          (commit-Effect etcd read laws request c s attempt) in
      let (later, later') = Saves-IsStale shard t _ s'' ht (same ∙ token) rest in
      (later ∙ same, later' ∙ same')

  -- When the store has the laws of transactions, also of those that fail, and the fencing token of
  -- a shard is that of an id below 10 ^ 20, a checkpoint request under an id below 10 ^ 20 that
  -- returns, with an answer or an error, leaves the token and the checkpoint of the shard as they
  -- were, when what is done to the store between its transactions is transactions of checkpoint
  -- requests, of any nodes and in any order, and every request for the shard is under a lower id.
  pub handle_checkpoint_request-IsStale :
      (between : Condition → K → K) (others : ManagerService → Run ManagerService)
      (request : CheckpointRequest) (s s' : K) (m m' : ManagerService)
      (r : Option CheckpointResponse) (shard : String) (t : ℕ)
      → ((c : Condition) (u : K) → Saves etcd read laws (IsStale shard t) u (between c u))
      → IsPrintable request.assignment_id
      → IsStale shard t request
      → IsPrintable t
      → read s (assignment_key shard) ≡ some (fencing_token t)
      → handle_checkpoint_request etcd between others request (s, m) ≡ ok (r, s', m')
      → (read s' (assignment_key shard) ≡ read s (assignment_key shard))
        × (read s' (checkpoint_key shard) ≡ read s (checkpoint_key shard))
  handle_checkpoint_request-IsStale between others request s s' m m' r shard t meanwhile fits stale
        ht token done =
      Saves-IsStale shard t s s' ht token (
        handled-Saves etcd read laws (IsStale shard t) between meanwhile request fits stale others s
          s' m m' r done)
