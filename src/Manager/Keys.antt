-- ===== src/Manager/Keys.antt =====
-- handleCheckpointRequest: the keys of the store, and which of them a checkpoint writes.
use Prim.Native.Nat.{Ordering}
use Prim.Native.String.{◌++◌ as append, compare}
use Prim.Native.String.append as append_clauses
use Prim.Native.String.compare as compare_clauses
use text.Mathlib.TextLemmas.{append_cancel_left, append_cancel_right}
use text.Mathlib.TextPositions.{compare_refl}
use libvegas.Base.{◌≡◌, ◌≢◌, refl, sym, ◌∙◌, ap, Option, some, String, string_eq}
use libvegas.Base.Map.{beq_refl, ne_beq}
use libvegas.Etcd.{Etcd, written}
use libvegas.Messages.{CheckpointRequest}
use libvegas.Manager.Checkpoint.{assignment_key, checkpoint_key, fencing_token, checkpoint_puts}

pub assignment_key_injective : (a b : String) → assignment_key a ≡ assignment_key b → a ≡ b
unfolding assignment_key
assignment_key_injective a b h =
    append_cancel_right a b "-assignment-id" (append_cancel_left "assignments/" _ _ h)

pub checkpoint_key_injective : (a b : String) → checkpoint_key a ≡ checkpoint_key b → a ≡ b
unfolding checkpoint_key
checkpoint_key_injective a b h = append_cancel_left "checkpoints/" a b h

compare-keys : (a b : String) → compare (assignment_key a) (checkpoint_key b) ≡ Ordering.lt
unfolding assignment_key checkpoint_key
compare-keys a b =
    rw
      (
        append_clauses.cons "a" "ssignments/" (append a "-assignment-id"),
        append_clauses.cons "c" "heckpoints/" b,
      )
      (compare_clauses.cons-cons "a" "c" _ _)

pub keys_apart : (a b : String) → assignment_key a ≢ checkpoint_key b
keys_apart a b h =
    let same : Ordering.eq ≡ Ordering.lt =
      sym (compare_refl (assignment_key a))
      ∙ ap (compare (assignment_key a)) h
      ∙ compare-keys a b in
    cc same

module _ {K : Type 0} (etcd : Etcd K) (request : CheckpointRequest)
    (read : String → Option String) where
  abbrev after_puts : String → Option String
  after_puts = written (checkpoint_puts etcd request) read

  -- The token of the shard.
  pub wrote_token :
      after_puts (assignment_key request.shard_id) ≡ some (fencing_token request.assignment_id)
  wrote_token =
      rw
        (
          ne_beq (checkpoint_key request.shard_id) (assignment_key request.shard_id)
              (λ h. keys_apart request.shard_id request.shard_id (sym h)),
          beq_refl (assignment_key request.shard_id),
        )
        refl

  -- The keys of other shards are left alone.
  pub other_token :
      (shard : String)
      → shard ≢ request.shard_id
      → after_puts (assignment_key shard) ≡ read (assignment_key shard)
  other_token shard other =
      rw
        (
          ne_beq (checkpoint_key request.shard_id) (assignment_key shard)
              (λ h. keys_apart shard request.shard_id (sym h)),
          ne_beq (assignment_key request.shard_id) (assignment_key shard)
              (λ h. other (sym (assignment_key_injective request.shard_id shard h))),
        )
        refl

  pub other_checkpoint :
      (shard : String)
      → shard ≢ request.shard_id
      → after_puts (checkpoint_key shard) ≡ read (checkpoint_key shard)
  other_checkpoint shard other =
      rw
        (
          ne_beq (checkpoint_key request.shard_id) (checkpoint_key shard)
              (λ h. other (sym (checkpoint_key_injective request.shard_id shard h))),
          ne_beq (assignment_key request.shard_id) (checkpoint_key shard)
              (keys_apart request.shard_id shard),
        )
        refl
