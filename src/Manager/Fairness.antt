-- ===== src/Manager/Fairness.antt =====
-- rebalance: when its loop ends.
use libvegas.Base.{
  ℕ, zero, suc, ◌+◌, ◌-◌, ◌≤◌, ◌<◌, ◌≡◌, ◌≢◌, refl, ◌∙◌, sym, ap, subst, Bool, true, false, ◌||◌,
  List, [], ◌∷◌, ◌++◌, none, some, String, arith, nat_eq, string_eq, ◌==◌, nat_beq, nat_beq_iff,
  inl, inr, Option-cases, Bool-cases,
}
use mathlib.Core.Logic.Or
use mathlib.Core.List.{Mem, Perm, mem-cons, mem-cons_self, mem-cons_of_mem, not-mem-nil}
use mathlib.Core.List.Perm
use libvegas.Base.Run.{
  Returns, returned, Returns-then, Returns-weaken, Returns-split, Returns-value, Returns-both,
}
use libvegas.Base.Int.{ℤ, pos, negsuc, dec, leb_ℤ}
use libvegas.Base.Map.{Map, lookup, insert, lookup_or, lookup-insert}
use libvegas.Messages.{Shard}
use libvegas.Queue.Calls.{peek_lem, Peeked}
use libvegas.Queue.Update.{push_lem}
use libvegas.Manager.{
  ManagerService, WorkerInfo, WorkerAssignment, RangeOrder, set_info, priority_of_int,
}
use libvegas.Manager.Rebalance.{find_stealable, request_reassignment, rebalance_loop}
use libvegas.Manager.Sync.{IsSynced, allocated_info, cell-IsAllocated}
use libvegas.Manager.Stealing.{
  AreBacked, Looted, Stolen-refl, Looted-after, request_reassignment-Stolen, insert-AreBacked,
  weaken-AreBacked,
}

-- Assignments without a reassignment request.
abbrev pub is_free : WorkerAssignment → ℕ
is_free a = elim a.reassignment_request [ none ↦ 1 | some _ ↦ 0 ]

abbrev pub free : Map String WorkerAssignment → ℕ
free [] = 0
free ((s, a) ∷ rest) = is_free a + free rest

free-insert :
    (s : String) (a : WorkerAssignment) (m : Map String WorkerAssignment)
    → free m ≤ free (insert s a m) + 1
unfolding insert
free-insert s a [] = omega arith
free-insert s a ((t, b) ∷ rest) = ground (arith, free-insert s a rest)

-- A member without a request can be stolen.
find_stealable-some :
    (s : String) (a : WorkerAssignment) (m : Map String WorkerAssignment)
    → Mem (s, a) m
    → a.reassignment_request ≡ none
    → find_stealable m ≢ none
unfolding find_stealable
find_stealable-some s a [] k e = absurd (not-mem-nil k)
find_stealable-some s a ((t, b) ∷ rest) k e = elim (Option-cases b.reassignment_request) [
  | inl free_one ↦ rw (free_one, find_stealable) λ h. cc h
  | inr (r, wanted) ↦
      rw (wanted, find_stealable)
        λ h.
          Or.elim (hlevel) (mem-cons.0 k) (λ same. cc (wanted, e, ap (λ p. p.1) same))
            (λ k'. find_stealable-some s a rest k' e h)
]

free_member :
    (m : Map String WorkerAssignment)
    → 0 < free m
    → (s : String) × (a : WorkerAssignment) × Mem (s, a) m × (a.reassignment_request ≡ none)
free_member [] h = absurd (omega arith)
free_member ((s, a) ∷ rest) h = elim (Option-cases a.reassignment_request) [
  | inl idle ↦ (s, a, mem-cons_self, idle)
  | inr (r, wanted) ↦
      let (t, b, k, e) = free_member rest (ground arith) in (t, b, mem-cons_of_mem (s, a) k, e)
]

-- No cell counts more shards than it has free assignments.
abbrev pub IsHonest : WorkerInfo → Type 0
IsHonest i = leb_ℤ i.active_shard_count (pos (free i.assignments)) ≡ true

abbrev pub AreHonest : ManagerService → Type 0
AreHonest m = (w : ℕ) (i : WorkerInfo) → lookup w m.infos ≡ some i → IsHonest i

leb-dec : (c : ℤ) (n k : ℕ) → leb_ℤ c (pos n) ≡ true → n ≤ k + 1 → leb_ℤ (dec c) (pos k) ≡ true
unfolding leb_ℤ dec
leb-dec (pos c) n k h l = ground arith
leb-dec (negsuc c) n k h l = refl

-- A count above `ideal` leaves something to steal.
busy_free : (c : ℤ) (ideal n : ℕ) → leb_ℤ c (pos ideal) ≡ false → leb_ℤ c (pos n) ≡ true → 0 < n
unfolding leb_ℤ
busy_free (pos c) ideal n h l = ground arith
busy_free (negsuc c) ideal n h l = absurd (cc h)

request_reassignment-AreHonest :
    (clock w : ℕ) (i : WorkerInfo) (s : String) (a : WorkerAssignment) (m : ManagerService)
    → AreHonest m
    → IsSynced m
    → lookup w m.infos ≡ some i
    → Returns AreHonest (request_reassignment clock w i (s, a) m)
unfolding request_reassignment set_info
request_reassignment-AreHonest clock w i s a m h v e =
    let a' : WorkerAssignment = record a {
      reassignment_request = some (record { created_at = clock });
    } in
    let j : WorkerInfo = record i {
      assignments = insert s a' i.assignments;
      active_shard_count = dec i.active_shard_count;
    } in
    Returns-then (push_lem m.worker_shard_count w (priority_of_int j.active_shard_count) v.counts)
      λ q _. returned λ u k f. elim (Bool-cases (w == u)) [
        | inl same ↦
            let here : some j ≡ some k = sym (lookup-insert w u j m.infos ∙ rw same refl) ∙ f in
            let is_j : j ≡ k = cc here in
            subst IsHonest is_j
              (leb-dec i.active_shard_count _ _ (h w i e) (free-insert s a' i.assignments))
        | inr differ ↦ h u k (sym (lookup-insert w u j m.infos ∙ rw differ refl) ∙ f)
      ]

second_false : (a b : Bool) → (a || b) ≡ false → b ≡ false
second_false true b h = absurd (cc h)
second_false false b h = h

lower : (n k : ℕ) → nat_beq n 0 ≡ false → n < suc k → n - 1 < k
lower n k h l = ground (arith, nat_beq_iff n 0)

module _ (order : RangeOrder)
    (visits : (m : Map String WorkerAssignment) → Perm (order.assignments m) m) where
  stealable :
      (m : Map String WorkerAssignment)
      → 0 < free m
      → (e : String × WorkerAssignment) × (find_stealable (order.assignments m) ≡ some e)
  stealable m h = elim (Option-cases (find_stealable (order.assignments m))) [
    | inl nothing ↦
        let (s, a, k, idle) = free_member m h in
        absurd (
          find_stealable-some s a (order.assignments m) ((Perm.mem_iff (visits m)).1 k) idle
            nothing)
    | inr found ↦ found
  ]

  -- On a manager in step where no worker counts more shards than it has assignments without a
  -- reassignment request, and with more fuel than shards are wanted, the loop of rebalance ends;
  -- the workers and notifications are the same, the manager is in step, no worker counts more than
  -- its free assignments, and the offers name workers that have cells.
  pub rebalance_loop_lem :
      (k clock ideal : ℕ) (id : String) (target : ℕ) (offers : Map ℕ (List Shard))
      (m : ManagerService)
      → IsSynced m
      → AreHonest m
      → AreBacked m.infos offers
      → target < k
      → Returns
          (λ r. Looted order m r × AreHonest r.1)
          (rebalance_loop order k clock ideal id target offers m)
  unfolding rebalance_loop
  rebalance_loop_lem zero clock ideal id target offers m v honest h enough = absurd (omega arith)
  rebalance_loop_lem (suc k) clock ideal id target offers m v honest h enough =
      let kept : Looted order m (offers, m) × AreHonest m = ((Stolen-refl order m v, h), honest) in
      let (busiest, e, shown) = Returns-value (peek_lem m.worker_shard_count v.counts) in
      elim (Option-cases busiest) [
        | inl nobody ↦
            rw (e, nobody)
              (Returns-split (nat_beq target 0) (λ _. returned kept) (λ _. returned kept))
        | inr (w, is_first) ↦
            let (p, there, least) = subst (Peeked m.worker_shard_count) is_first shown in
            let (i, cell) = allocated_info m.infos w (v.counted w p there) in
            rw (e, is_first)
              (rw cell (
                Returns-split (nat_beq target 0) (λ _. returned kept)
                  (λ wanted.
                    Returns-split (i.worker_id == id || leb_ℤ i.active_shard_count (pos ideal))
                      (λ _. returned kept)
                      (λ busy.
                        let ((s, a), found) = stealable i.assignments (
                          busy_free i.active_shard_count ideal _
                            (second_false (i.worker_id == id)
                              (leb_ℤ i.active_shard_count (pos ideal)) busy)
                            (honest w i cell)) in
                        rw found (
                          Returns-then
                            (Returns-both (request_reassignment-Stolen clock w i s a m v cell)
                              (request_reassignment-AreHonest clock w i s a m honest v cell))
                            λ n ((settled, up), honest').
                              let taken = insert w (lookup_or [] w offers ++ a.shard ∷ []) offers in
                              let backed =
                                insert-AreBacked n.infos w _ offers
                                  (up w (cell-IsAllocated m.infos w i cell))
                                  (weaken-AreBacked m.infos n.infos offers up h) in
                              Returns-weaken
                                (rebalance_loop_lem k clock ideal id (target - 1) taken n
                                  settled.synced honest' backed (lower target k wanted enough))
                                λ r (looted, last).
                                  (Looted-after order m n r (settled, up) looted, last))))))
      ]
