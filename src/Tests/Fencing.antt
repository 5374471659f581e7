-- ===== src/Tests/Fencing.antt =====
-- The theorems on fencing tokens, on a concrete store.
use Prim.Native.Nat.{compare as compare_ℕ}
use Prim.Native.String.{compare}
use libvegas.Base.{
  ℕ, ◌≤◌, ◌≡◌, refl, arith, ◌==◌, string_eq, if◌then◌else◌, true, false, Bool, ◌∷◌, [], Option,
  none, some, String,
}
use libvegas.Base.Run.{ok}
use libvegas.Base.Map.{lookup, insert, beq_ne}
use libvegas.Etcd.{Condition, equal as at_value}
use libvegas.Messages.{CheckpointRequest}
use libvegas.Manager.Checkpoint.{
  zero_padded, fencing_token, assignment_key, checkpoint_key, checkpoint_puts, fencing_conditions,
  try_conditions, handle_checkpoint_request, changed_response,
}
use libvegas.Manager.Tokens.{compare-zero_padded}
use libvegas.Manager.Saving.{IsPrintable, Saves, none_left, one_more, at_token}
use libvegas.Manager.Stale.{handle_checkpoint_request-rising, handle_checkpoint_request-IsStale}
use libvegas.Manager.Fenced.{Reachable-IsEarlier}
use libvegas.Tests.{cfg}
use libvegas.Tests.Handlers.{heavy}
use libvegas.Tests.Life.{any_name, holding, shard_given, worker, assignment}
use libvegas.Tests.Examples.{manager, memory, memory-laws, checkpoint}

compare-zero_padded_example : compare (zero_padded 20 9) (zero_padded 20 10) ≡ compare_ℕ 9 10
compare-zero_padded_example = compare-zero_padded 20 9 10 (omega arith) (omega arith)

-- The token of shard s0 is `id`, and its checkpoint 41.
abbrev held_under : ℕ → String → Option String
held_under id key =
    if key == "assignments/s0-assignment-id"
    then some (fencing_token id)
    else if key == "checkpoints/s0"
    then some "41"
    else none

printable : (n : ℕ) → n ≤ 9 → IsPrintable n
printable n h = omega arith

abbrev for_s1 : CheckpointRequest
for_s1 = record { worker_id = "a"; shard_id = "s1"; assignment_id = 8; sequence_number = "5" }

-- The first transaction of the request, whatever is in the store.
abbrev at_own_token : CheckpointRequest → (String → Option String) → String → Option String
at_own_token request s =
    (memory.commit
      (at_value (assignment_key request.shard_id) (fencing_token request.assignment_id))
      (checkpoint_puts memory request) s).1

one_save :
    (Allowed : CheckpointRequest → Type 0) (request : CheckpointRequest)
    → IsPrintable request.assignment_id
    → Allowed request
    → (s : String → Option String)
    → Saves memory (λ s. s) memory-laws Allowed s (at_own_token request s)
one_save Allowed request fits allowed s = one_more request _ fits allowed at_token none_left

apart_s1 : {A : Type 0} → ◌≡◌ {A = String} "s1" "s0" → A
apart_s1 e = absurd (beq_ne "s1" "s0" refl e)

-- Between the transactions a node checkpoints the other shard.
abbrev meanwhile : Condition → (String → Option String) → String → Option String
meanwhile c s = at_own_token for_s1 s

abbrev tried : ℕ → Option Bool × (String → Option String)
tried t =
    try_conditions memory meanwhile (fencing_conditions memory checkpoint)
      (checkpoint_puts memory checkpoint) (held_under t)

late :
    handle_checkpoint_request memory meanwhile ok checkpoint (held_under 9, manager)
    ≡ ok (some (changed_response true), (tried 9).1, manager)
unfolding handle_checkpoint_request lookup insert assignment_key checkpoint_key zero_padded
late = refl

handle_checkpoint_request-IsStale_example :
    ((tried 9).1 (assignment_key "s0") ≡ held_under 9 (assignment_key "s0"))
    × ((tried 9).1 (checkpoint_key "s0") ≡ held_under 9 (checkpoint_key "s0"))
unfolding assignment_key
handle_checkpoint_request-IsStale_example =
    handle_checkpoint_request-IsStale memory (λ s. s) memory-laws meanwhile ok checkpoint
      (held_under 9) (tried 9).1 manager manager (some (changed_response true)) "s0" 9
      (λ c u. one_save _ for_s1 (printable 8 (omega arith)) apart_s1 u) (printable 7 (omega arith))
      (λ e. omega arith) (printable 9 (omega arith)) refl late

accepted :
    handle_checkpoint_request memory meanwhile ok checkpoint (held_under 5, manager)
    ≡ ok (
      some (changed_response false),
      (tried 5).1,
      record manager { checkpoints = ("s0", "42") ∷ [] },
    )
unfolding handle_checkpoint_request lookup insert assignment_key checkpoint_key zero_padded
accepted = refl

handle_checkpoint_request-rising_example :
    (t : ℕ) × (5 ≤ t) × IsPrintable t × ((tried 5).1 (assignment_key "s0") ≡ some (fencing_token t))
unfolding assignment_key
handle_checkpoint_request-rising_example =
    handle_checkpoint_request-rising memory (λ s. s) memory-laws meanwhile ok checkpoint
      (held_under 5) (tried 5).1 manager (record manager { checkpoints = ("s0", "42") ∷ [] })
      (some (changed_response false)) 5 (λ c u. one_save _ for_s1 (printable 8 (omega arith)) tt u)
      (printable 7 (omega arith)) (printable 5 (omega arith)) "s0" refl accepted

Reachable-IsEarlier_example :
    ((tried 9).1 (assignment_key "s0") ≡ held_under 9 (assignment_key "s0"))
    × ((tried 9).1 (checkpoint_key "s0") ≡ held_under 9 (checkpoint_key "s0"))
unfolding assignment_key lookup
Reachable-IsEarlier_example =
    Reachable-IsEarlier memory (λ s. s) memory-laws any_name heavy cfg holding meanwhile ok
      checkpoint (held_under 9) (tried 9).1 manager manager (some (changed_response true)) "s0" 9
      shard_given (omega arith) (printable 9 (omega arith)) refl
      (λ c u. one_save _ for_s1 (printable 8 (omega arith)) apart_s1 u) (printable 7 (omega arith))
      (λ e. (0, worker, "s0", assignment, refl, refl, refl)) late
