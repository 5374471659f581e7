-- ===== src/Manager/Grant.antt =====
-- assignFromUnassignedPool: which shards the worker gets, and under which assignment ids.
use libvegas.Base.{
  ℕ, zero, suc, ◌+◌, ◌≤◌, ◌<◌, ◌≡◌, refl, ◌∙◌, sym, ap, subst, subst₂, Bool, true, false, List, [],
  ◌∷◌, none, some, String, arith, nat_eq, string_eq, ◌==◌, if◌then◌else◌, ◌⊎◌, inl, inr, Bool-cases,
  length, take, drop, ltb, length-take,
}
use libvegas.Base.Run.{for_each, Returns, returned, Returns-then, Returns-weaken, Returns-split}
use libvegas.Base.Int.{ℤ, inc}
use libvegas.Base.Map.{Map, lookup, insert, has, lookup-insert, lookup-insert_self}
use libvegas.Messages.{Shard}
use libvegas.Manager.{
  ManagerService, WorkerInfo, WorkerAssignment, set_info, get_next_assignment_id,
}
use libvegas.Manager.Acquire.{give_shard, assign_from_unassigned_pool}
use libvegas.Manager.Sync.{
  IsSynced, Frame-IsSynced, unassigned-IsSynced, Frame, Frame-refl, Frame-trans, standing-insert,
}

abbrev pub is_among : String → List Shard → Bool
is_among k [] = false
is_among k (s ∷ rest) = if s.shard_id == k then true else is_among k rest

abbrev pub inc_by : ℕ → ℤ → ℤ
inc_by zero n = n
inc_by (suc k) n = inc_by k (inc n)

-- The worker's cell `i` became `j`: it has the shards, each under an id of the range from `first`
-- to before `last`.
pub record Granted (shards : List Shard) (first last : ℕ) (i j : WorkerInfo) : Type 0 where
  pub count : j.active_shard_count ≡ inc_by (length shards) i.active_shard_count
  pub held :
      (k : String) → has k j.assignments ≡ (if is_among k shards then true else has k i.assignments)
  pub ids :
      (k : String) (a : WorkerAssignment)
      → lookup k j.assignments ≡ some a
      → (lookup k i.assignments ≡ some a) ⊎ ((first ≤ a.id) × (a.id < last))

-- The worker `w` was given the shards, in `n`.
pub record Given (w : ℕ) (shards : List Shard) (m : ManagerService) (i : WorkerInfo)
    (n : ManagerService) : Type 0 where
  pub frame : Frame m n
  pub pool : n.unassigned_shards ≡ m.unassigned_shards
  pub term : n.term ≡ m.term
  pub offset : n.next_assignment_offset ≡ m.next_assignment_offset + length shards
  pub info : WorkerInfo
  pub cell : lookup w n.infos ≡ some info
  pub granted :
      Granted shards
        (m.term + m.next_assignment_offset)
        (m.term + m.next_assignment_offset + length shards)
        i
        info

has-insert :
    (j k : String) (a : WorkerAssignment) (m : Map String WorkerAssignment)
    → has k (insert j a m) ≡ (if j == k then true else has k m)
has-insert j k a m = ground (arith, lookup-insert j k a m)

abbrev granted : WorkerInfo → ℕ → ℕ → Shard → WorkerInfo
granted i w id s = record i {
  assignments =
      insert s.shard_id (record { id = id; shard = s; reassignment_request = none; worker = w })
        i.assignments;
  active_shard_count = inc i.active_shard_count;
}

some-id : (a b : WorkerAssignment) → some a ≡ some b → a.id ≡ b.id
some-id a b e = cc e

Granted-cons :
    (s : Shard) (rest : List Shard) (w id : ℕ) (i j : WorkerInfo)
    → Granted rest (id + 1) (id + 1 + length rest) (granted i w id s) j
    → Granted (s ∷ rest) id (id + length (s ∷ rest)) i j
Granted-cons s rest w id i j g = record {
  count = g.count;
  held = λ k.
      g.held k
      ∙ ground (
        arith,
        has-insert s.shard_id k
            (record { id = id; shard = s; reassignment_request = none; worker = w }) i.assignments,
      );
  ids = λ k a h. elim (g.ids k a h) [
    | inl old ↦ elim (Bool-cases (s.shard_id == k)) [
      | inl same ↦
          let found : some (record { id = id; shard = s; reassignment_request = none; worker = w })
              ≡ some a =
            sym (lookup-insert s.shard_id k _ i.assignments ∙ rw same refl) ∙ old in
          let here : id ≡ a.id = some-id _ a found in inr (omega arith, omega arith)
      | inr differ ↦ inl (sym (lookup-insert s.shard_id k _ i.assignments ∙ rw differ refl) ∙ old)
    ]
    | inr (low, high) ↦ inr (omega arith, omega arith)
  ];
}

for_each-Given :
    (w : ℕ) (shards : List Shard) (m : ManagerService) (i : WorkerInfo)
    → lookup w m.infos ≡ some i
    → Returns (Given w shards m i) (for_each (give_shard w) shards m)
unfolding for_each give_shard get_next_assignment_id set_info
for_each-Given w [] m i e = returned (record {
  frame = Frame-refl m;
  pool = refl;
  term = refl;
  offset = omega arith;
  info = i;
  cell = e;
  granted = record { count = refl; held = λ k. refl; ids = λ k a h. inl h };
})
for_each-Given w (s ∷ rest) m i e =
    let id = m.term + m.next_assignment_offset in
    let j = granted i w id s in
    rw e (
      Returns-weaken
        (for_each-Given w rest
          (record m {
            next_assignment_offset = m.next_assignment_offset + 1;
            infos = insert w j m.infos;
          })
          j (lookup-insert_self w j m.infos))
        λ n g. record {
          frame =
              Frame-trans
                (record {
                  cfg = refl;
                  workers = refl;
                  heartbeats = refl;
                  counts = refl;
                  closed = refl;
                  next = refl;
                  infos = λ v. standing-insert m.infos w i j v e (refl, refl);
                })
                g.frame;
          pool = g.pool;
          term = g.term;
          offset = omega (arith, g.offset);
          info = g.info;
          cell = g.cell;
          granted =
              Granted-cons s rest w id i g.info
                (subst₂ (λ a b. Granted rest a b j g.info) (omega arith) (omega arith) g.granted);
        })

-- What the call leaves: the first `count` shards of the pool are the worker's, the rest is the pool.
pub record Drawn (count w : ℕ) (m : ManagerService) (i : WorkerInfo) (n : ManagerService)
    : Type 0 where
  pub synced : IsSynced n
  pub workers : n.workers ≡ m.workers
  pub closed : n.closed ≡ m.closed
  pub pool : n.unassigned_shards ≡ drop count m.unassigned_shards
  pub offset : n.next_assignment_offset ≡ m.next_assignment_offset + count
  pub info : WorkerInfo
  pub cell : lookup w n.infos ≡ some info
  pub granted :
      Granted
        (take count m.unassigned_shards)
        (m.term + m.next_assignment_offset)
        (m.term + n.next_assignment_offset)
        i
        info

Given-Drawn :
    (count w : ℕ) (m : ManagerService) (i : WorkerInfo) (n : ManagerService)
    → count ≤ length m.unassigned_shards
    → IsSynced m
    → Given w (take count m.unassigned_shards) m i n
    → Drawn count w m i (record n { unassigned_shards = drop count n.unassigned_shards })
Given-Drawn count w m i n enough v g =
    let size = length-take count m.unassigned_shards enough in
    record {
      workers = g.frame.workers;
      closed = g.frame.closed;
      synced = unassigned-IsSynced n _ (Frame-IsSynced v g.frame);
      pool = ap (drop count) g.pool;
      offset = omega (arith, g.offset, size);
      info = g.info;
      cell = g.cell;
      granted =
          subst
            (λ b.
              Granted (take count m.unassigned_shards) (m.term + m.next_assignment_offset) b i
                g.info)
            (omega (arith, g.offset, size)) g.granted;
    }

-- On a manager in step, for a worker with a cell and a count within the pool,
-- assignFromUnassignedPool returns a manager in step: the pool has lost that many shards at its
-- front, the worker holds these and the shards it held, its count of shards is increased once for
-- each, the counter of ids has advanced by the count, and every assignment of the worker is an old
-- one or has an id from the old value of the counter to before the new one, both counted from the
-- term.
pub assign_from_unassigned_pool_lem :
    (count w : ℕ) (m : ManagerService) (i : WorkerInfo)
    → IsSynced m
    → lookup w m.infos ≡ some i
    → count ≤ length m.unassigned_shards
    → Returns (Drawn count w m i) (assign_from_unassigned_pool count w m)
unfolding assign_from_unassigned_pool
assign_from_unassigned_pool_lem count w m i v e enough =
    Returns-split (ltb (length m.unassigned_shards) count) (λ short. absurd (ground arith))
      (λ room.
        Returns-then (for_each-Given w (take count m.unassigned_shards) m i e)
          λ n g. returned (Given-Drawn count w m i n enough v g))
