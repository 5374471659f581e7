-- ===== src/Manager/Interleaving.antt =====
-- handleCheckpointRequest among the transactions of others: what it does to the store is transactions
-- too.
use libvegas.Base.{
  ◌≡◌, refl, sym, ap, subst, Bool, true, false, Option, none, some, String, string_eq, inl, inr,
  Option-cases, List, [], ◌∷◌, if◌then◌else◌,
}
use libvegas.Base.Run.{Run, ok}
use libvegas.Base.Partial.{Only, only, any-Only, Only-then, only_value}
use libvegas.Messages.{CheckpointRequest, CheckpointResponse}
use libvegas.Etcd.{Etcd, EtcdLaws, Condition}
use libvegas.Manager.{ManagerService}
use libvegas.Manager.Checkpoint.{
  fencing_conditions, checkpoint_puts, handle_checkpoint_request, try_conditions, finish_checkpoint,
  record_checkpoint, ensure_checkpoint_ownership,
}
use libvegas.Manager.Saving.{
  IsPrintable, IsAttempt, at_token, at_none, below_token, Saves, none_left, one_more, Saves-then,
}

module _ {K : Type 0} (etcd : Etcd K) (read : K → String → Option String)
    (laws : EtcdLaws etcd read) where
  -- The transactions of a request, when what happens between them is transactions of others.
  abbrev AreAttempts : CheckpointRequest → List Condition → Type 0
  AreAttempts request [] = Unit
  AreAttempts request (c ∷ conds) = IsAttempt etcd read laws request c × AreAttempts request conds

  module _ (Allowed : CheckpointRequest → Type 0) (between : Condition → K → K)
      (meanwhile : (c : Condition) (s : K) → Saves etcd read laws Allowed s (between c s))
      (request : CheckpointRequest) (fits : IsPrintable request.assignment_id)
      (allowed : Allowed request) where
    saved_then :
        (c : Condition) (s u : K) (tried : Option Bool × K)
        → IsAttempt etcd read laws request c
        → etcd.commit c (checkpoint_puts etcd request) (between c s) ≡ tried
        → Saves etcd read laws Allowed tried.1 u
        → Saves etcd read laws Allowed s u
    saved_then c s u tried one e later = Saves-then etcd read laws (meanwhile c s) (
        one_more request c fits allowed one
          (subst (λ x. Saves etcd read laws Allowed x u) (sym (ap (λ x. x.1) e)) later))

    Left-step :
        (c : Condition) (s : K) (next tried : Option Bool × K)
        → IsAttempt etcd read laws request c
        → etcd.commit c (checkpoint_puts etcd request) (between c s) ≡ tried
        → Saves etcd read laws Allowed tried.1 next.1
        → Saves etcd read laws Allowed s
            (elim tried.0 as (λ _. Option Bool × K) [
              | none ↦ tried
              | some succeeded ↦ if succeeded then tried else next
            ]).1
    Left-step c s next (none, s') one e rest = saved_then c s s' (none, s') one e none_left
    Left-step c s next (some true, s') one e rest =
        saved_then c s s' (some true, s') one e none_left
    Left-step c s next (some false, s') one e rest =
        saved_then c s next.1 (some false, s') one e rest

    try_conditions-Left :
        (conds : List Condition) (s : K)
        → AreAttempts request conds
        → Saves etcd read laws Allowed s
            (try_conditions etcd between conds (checkpoint_puts etcd request) s).1
    unfolding try_conditions
    try_conditions-Left [] s ones = none_left
    try_conditions-Left (c ∷ conds) s (one, ones) =
        Left-step c s _ (etcd.commit c (checkpoint_puts etcd request) (between c s)) one refl (
          try_conditions-Left conds (etcd.commit c (checkpoint_puts etcd request) (between c s)).1
            ones)

    finish_checkpoint-Saves :
        (s : K) (m : ManagerService) (tried : Option Bool × K)
        → Saves etcd read laws Allowed s tried.1
        → Only
            (λ (r, s', n). Saves etcd read laws Allowed s s')
            (finish_checkpoint etcd request m tried)
    unfolding finish_checkpoint
    finish_checkpoint-Saves s m (none, s') h = only h
    finish_checkpoint-Saves s m (some false, s') h = only h
    finish_checkpoint-Saves s m (some true, s') h =
        Only-then (any-Only (record_checkpoint request m)) λ (r, n) _. only h

    handle_checkpoint_request-Saves :
        (others : ManagerService → Run ManagerService) (s : K) (m : ManagerService)
        → Only
            (λ (r, s', n). Saves etcd read laws Allowed s s')
            (handle_checkpoint_request etcd between others request (s, m))
    unfolding handle_checkpoint_request
    handle_checkpoint_request-Saves others s m =
        Only-then (any-Only (ensure_checkpoint_ownership request m)) λ refused _.
          elim (Option-cases refused) [
            | inr (r, e) ↦ rw e (only none_left)
            | inl e ↦ rw e (
                Only-then (any-Only (others m)) λ m' _. finish_checkpoint-Saves s m' _ (
                  try_conditions-Left (fencing_conditions etcd request) s
                    (at_token, (at_none, (below_token, tt)))))
          ]

    pub handled-Saves :
        (others : ManagerService → Run ManagerService) (s s' : K) (m m' : ManagerService)
        (r : Option CheckpointResponse)
        → handle_checkpoint_request etcd between others request (s, m) ≡ ok (r, s', m')
        → Saves etcd read laws Allowed s s'
    handled-Saves others s s' m m' r done =
        only_value {P = λ (r, s', n). Saves etcd read laws Allowed s s'} (
          subst (Only (λ (r, s', n). Saves etcd read laws Allowed s s')) done
            (handle_checkpoint_request-Saves others s m))
