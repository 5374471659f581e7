-- ===== src/Manager/Saving.antt =====
-- Checkpoints of several owners of a shard, on any nodes, and what one of them does to the store.
use Prim.Native.Nat.{Ordering, compare as compare_ℕ}
use Prim.Native.String.{compare}
use libvegas.Base.{
  ℕ, ◌^◌, ◌<◌, ◌≡◌, sym, ◌∙◌, ap, Bool, true, false, Option, none, some, String, string_eq, ◌==◌,
  ◌⊎◌, inl, inr, Bool-cases, Option-cases, arith,
}
use libvegas.Base.Map.{beq_eq}
use libvegas.Messages.{CheckpointRequest}
use libvegas.Etcd.{
  Etcd, EtcdLaws, Condition, absent, equal as at_value, less as below_value, holds, written,
}
use libvegas.Manager.Checkpoint.{assignment_key, fencing_token, checkpoint_puts}
use libvegas.Manager.Tokens.{compare-zero_padded}

-- An id that a token can print.
abbrev pub IsPrintable : ℕ → Type 0
IsPrintable id = id < 10 ^ 20

compare-fencing_token :
    (a b : ℕ)
    → IsPrintable a
    → IsPrintable b
    → compare (fencing_token a) (fencing_token b) ≡ compare_ℕ a b
compare-fencing_token a b ha hb = compare-zero_padded 20 a b ha hb

greater : (a b : ℕ) → a < b → compare_ℕ b a ≡ Ordering.gt
greater a b h = ground arith

equal : (a : ℕ) → compare_ℕ a a ≡ Ordering.eq
equal a = ground arith

-- Tokens of different ids are different texts.
tokens_apart :
    (a b : ℕ) → IsPrintable a → IsPrintable b → a < b → (fencing_token b == fencing_token a) ≡ false
tokens_apart a b ha hb less = elim (Bool-cases (fencing_token b == fencing_token a)) [
  | inr differ ↦ differ
  | inl same ↦
      let one = beq_eq (fencing_token b) (fencing_token a) same in
      let clash : compare_ℕ b a ≡ compare_ℕ a a =
        sym (compare-fencing_token b a hb ha)
        ∙ ap (λ s. compare s (fencing_token a)) one
        ∙ compare-fencing_token a a ha ha in
      absurd (cc (greater a b less, equal a, clash))
]

abbrev is_absent : Option String → Bool
is_absent o = elim o [ none ↦ true | some _ ↦ false ]

abbrev is_at : String → Option String → Bool
is_at text o = elim o [ none ↦ false | some u ↦ u == text ]

abbrev is_less : Ordering → Bool
is_less o = elim o [ Ordering.lt ↦ true | _ ↦ false ]

abbrev is_below : String → Option String → Bool
is_below text o = elim o [ none ↦ false | some u ↦ is_less (compare u text) ]

module _ {K : Type 0} (etcd : Etcd K) (read : K → String → Option String)
    (laws : EtcdLaws etcd read) where
  -- The condition is one of those of the request.
  pub data IsAttempt (request : CheckpointRequest) : Condition → Type 0 where
    at_token :
        IsAttempt request
          (at_value (assignment_key request.shard_id) (fencing_token request.assignment_id))
    at_none : IsAttempt request (absent (assignment_key request.shard_id))
    below_token :
        IsAttempt request
          (below_value (assignment_key request.shard_id) (fencing_token request.assignment_id))

  -- A request under an id below the token meets none of its conditions.
  pub no_condition :
      (s : K) (t : ℕ) (request : CheckpointRequest)
      → IsPrintable t
      → request.assignment_id < t
      → read s (assignment_key request.shard_id) ≡ some (fencing_token t)
      → (c : Condition) → IsAttempt request c
      → holds (read s) c ≡ false
  no_condition s t request ht less token c at_token =
      ap (is_at (fencing_token request.assignment_id)) token
      ∙ tokens_apart request.assignment_id t (omega arith) ht less
  no_condition s t request ht less token c at_none = ap is_absent token
  no_condition s t request ht less token c below_token =
      ap (is_below (fencing_token request.assignment_id)) token
      ∙ ap is_less (
          compare-fencing_token t request.assignment_id ht (omega arith)
          ∙ greater request.assignment_id t less)

  -- What a transaction of a request does to the store.
  abbrev pub Effect : CheckpointRequest → K → K → Type 0
  Effect request s s' =
      ((key : String) → read s' key ≡ read s key)
      ⊎ ((c : Condition) × IsAttempt request c
          × (holds (read s) c ≡ true)
          × ((key : String) → read s' key ≡ written (checkpoint_puts etcd request) (read s) key))

  -- The transactions of checkpoint requests, of any nodes and in any order.
  pub data Saves (Allowed : CheckpointRequest → Type 0) : K → K → Type 0 where
    none_left : {s : K} → Saves Allowed s s
    one_more :
        {s s'' : K} (request : CheckpointRequest) (c : Condition)
        → IsPrintable request.assignment_id
        → Allowed request
        → IsAttempt request c
        → Saves Allowed (etcd.commit c (checkpoint_puts etcd request) s).1 s''
        → Saves Allowed s s''

  answered-Effect :
      (request : CheckpointRequest) (c : Condition) (s : K)
      → IsAttempt request c
      → (b : Bool) → (etcd.commit c (checkpoint_puts etcd request) s).0 ≡ some b
      → Effect request s (etcd.commit c (checkpoint_puts etcd request) s).1
  answered-Effect request c s mem true e = inr (
    c,
    mem,
    sym (laws.tested c (checkpoint_puts etcd request) s true e),
    laws.applied c (checkpoint_puts etcd request) s e,
  )
  answered-Effect request c s mem false e = inl (laws.refused c (checkpoint_puts etcd request) s e)

  pub commit-Effect :
      (request : CheckpointRequest) (c : Condition) (s : K)
      → IsAttempt request c
      → Effect request s (etcd.commit c (checkpoint_puts etcd request) s).1
  commit-Effect request c s mem =
      elim (Option-cases (etcd.commit c (checkpoint_puts etcd request) s).0) [
        | inr (b, e) ↦ answered-Effect request c s mem b e
        | inl failed ↦ elim (laws.unknown c (checkpoint_puts etcd request) s failed) [
          | inl same ↦ inl same
          | inr (held, puts) ↦ inr (c, mem, held, puts)
        ]
      ]

  pub Saves-then :
      {Allowed : CheckpointRequest → Type 0} {s s' s'' : K}
      → Saves Allowed s s'
      → Saves Allowed s' s''
      → Saves Allowed s s''
  Saves-then none_left more = more
  Saves-then (one_more request c fits allowed mem rest) more =
      one_more request c fits allowed mem (Saves-then rest more)
