-- ===== src/Manager/Expiry.antt =====
-- releaseInactiveWorkers: the loop over its rounds.
use libvegas.Base.{
  ℕ, zero, suc, ◌+◌, ◌≤◌, ◌<◌, ◌≡◌, refl, ◌∙◌, sym, ap, subst, Bool, true, false, if◌then◌else◌,
  List, [], Option, none, some, String, arith, nat_eq, string_eq, ◌==◌, inl, inr, Option-cases,
  Bool-cases, length, ltb,
}
use mathlib.Core.List.{Perm}
use libvegas.Base.Run.{
  ok, Returns, returned, Returns-then, Returns-weaken, Returns-split, Returns-value,
}
use libvegas.Base.Map.{
  Map, lookup, lookup-remove, remove-some, length-remove-lt, beq_eq, beq_ne, beq_refl, ne_beq,
}
use libvegas.Messages.{Shard}
use libvegas.Queue.{PriorityQueue}
use libvegas.Queue.Valid.{Precedes, priority_of}
use libvegas.Queue.Calls.{peek_lem, Peeked}
use libvegas.Manager.{
  ManagerService, WorkerInfo, ReassignmentOffer, RangeOrder, worker_inactivity_timeout,
  priority_of_int, unix_milli,
}
use libvegas.Manager.Release.{Releasing, release_loop, release_inactive_workers}
use libvegas.Manager.Sync.{beat, standing, IsSynced, standing-info}
use libvegas.Manager.Inactive.{Dismissed, release_worker-Dismissed}

-- What the call leaves of `m`. The queue orders heartbeats by their milliseconds, the test is on
-- nanoseconds: hence the slack of a millisecond.
pub record Expired (at : ℕ) (m n : ManagerService) : Type 0 where
  pub synced : IsSynced n
  pub cfg : n.cfg ≡ m.cfg
  pub closed : n.closed ≡ m.closed
  pub infos : (w : ℕ) → standing n.infos w ≡ standing m.infos w
  pub kept : (id : String) (w : ℕ) → lookup id n.workers ≡ some w → lookup id m.workers ≡ some w
  pub current :
      (id : String) (w t : ℕ) (o : Option ReassignmentOffer)
      → lookup id n.workers ≡ some w
      → standing n.infos w ≡ some (t, o)
      → at < t + worker_inactivity_timeout m.cfg + 1000000
  pub spared :
      (id : String) (w t : ℕ) (o : Option ReassignmentOffer)
      → lookup id m.workers ≡ some w
      → standing m.infos w ≡ some (t, o)
      → at < t + worker_inactivity_timeout m.cfg
      → lookup id n.workers ≡ some w
  pub counts :
      (id : String) (w : ℕ)
      → lookup id n.workers ≡ some w
      → priority_of n.worker_shard_count w ≡ priority_of m.worker_shard_count w
  pub uncounted :
      (id : String) (w : ℕ)
      → lookup id m.workers ≡ some w
      → lookup id n.workers ≡ none
      → priority_of n.worker_shard_count w ≡ none
  pub never :
      (w : ℕ)
      → priority_of m.worker_shard_count w ≡ none
      → priority_of n.worker_shard_count w ≡ none

beat-le : (t u : ℕ) → beat t ≤ beat u → t < u + 1000000
unfolding priority_of_int unix_milli
beat-le t u h = omega arith

Expired-stop :
    (at : ℕ) (m : ManagerService)
    → IsSynced m
    → ((id : String) (w t : ℕ)
        → lookup id m.workers ≡ some w
        → priority_of m.worker_heartbeats id ≡ some (beat t)
        → at < t + worker_inactivity_timeout m.cfg + 1000000)
    → Expired at m m
Expired-stop at m v late = record {
  synced = v;
  cfg = refl;
  closed = refl;
  infos = λ w. refl;
  kept = λ id w h. h;
  current = λ id w t o h e.
      let (t', o', s, p) = v.listed id w h in
      let same : t ≡ t' = cc (e, s) in rw same (late id w t' h p);
  spared = λ id w t o h e l. h;
  counts = λ id w h. refl;
  uncounted = λ id w h gone. absurd (cc (h, gone));
  never = λ w h. h;
}

Expired-empty :
    (at : ℕ) (m : ManagerService)
    → IsSynced m
    → ((id : String) → priority_of m.worker_heartbeats id ≡ none)
    → Expired at m m
Expired-empty at m v empty = Expired-stop at m v λ id w t h p. absurd (cc (empty id, p))

none_either : {o : Option ℕ} (b : Bool) → o ≡ none → (if b then none else o) ≡ none
none_either true h = refl
none_either false h = h

Expired-step :
    (at : ℕ) (id : String) (w : ℕ) (i : WorkerInfo) (m n o : ManagerService)
    → IsSynced m
    → lookup id m.workers ≡ some w
    → standing m.infos w ≡ some (i.last_heartbeat, i.reassignment_offer)
    → ltb at (i.last_heartbeat + worker_inactivity_timeout m.cfg) ≡ false
    → Dismissed m id w n
    → Expired at n o
    → Expired at m o
Expired-step at id w i m n o v₀ k e late d x = record {
  synced = x.synced;
  cfg = x.cfg ∙ d.cfg;
  closed = x.closed ∙ d.closed;
  infos = λ v. x.infos v ∙ d.infos v;
  kept = λ j v h. (remove-some id j v m.workers (sym (ap (lookup j) d.workers) ∙ x.kept j v h)).1;
  current = λ j v t offer h f. rw (← d.cfg) (x.current j v t offer h f);
  spared = λ j v t offer h f l. elim (Bool-cases (id == j)) [
    | inl same ↦
        let here : lookup j m.workers ≡ some w = rw (← beq_eq id j same) k in
        let heartbeat : t ≡ i.last_heartbeat = cc (f, e, h, here) in
        absurd (ground (arith, heartbeat))
    | inr differ ↦
        let there : lookup j n.workers ≡ some v =
          ap (lookup j) d.workers ∙ lookup-remove id j m.workers ∙ rw differ h in
        x.spared j v t offer there (d.infos v ∙ f) (rw d.cfg l)
  ];
  counts = λ j u h.
      let (differ, h') =
        remove-some id j u m.workers (sym (ap (lookup j) d.workers) ∙ x.kept j u h) in
      let apart : (w == u) ≡ false =
        ne_beq w u λ same. beq_ne id j differ (v₀.distinct id j u (rw (← same) k) h') in
      x.counts j u h ∙ d.counts u ∙ rw apart refl;
  uncounted = λ j u h gone. elim (Bool-cases (id == j)) [
    | inl same ↦
        let mine : lookup id m.workers ≡ some u = rw (beq_eq id j same) h in
        let one : w ≡ u = cc (mine, k) in x.never u (d.counts u ∙ rw (← one) (rw (beq_refl w) refl))
    | inr differ ↦
        x.uncounted j u (ap (lookup j) d.workers ∙ lookup-remove id j m.workers ∙ rw differ h) gone
  ];
  never = λ u h. x.never u (d.counts u ∙ none_either (w == u) h);
}

first-le :
    (q : PriorityQueue String) (p b c : ℕ)
    → q.pq.reversed ≡ false
    → p ≡ b
    → Precedes q.pq.reversed p c
    → b ≤ c
first-le q p b c direction same h = rw (← same) (rw direction at h)

same_some : {o : Option ℕ} {p b : ℕ} → o ≡ some p → o ≡ some b → p ≡ b
same_some h k = cc (h, k)

stop_late :
    (at beat_at t u timeout : ℕ)
    → beat_at ≡ t
    → beat t ≤ beat u
    → ltb at (beat_at + timeout) ≡ true
    → at < u + timeout + 1000000
stop_late at beat_at t u timeout same le active = ground (arith, beat-le t u le)

module _ (order : RangeOrder) (visits : (m : Map ℕ (List Shard)) → Perm (order.offers m) m) where
  release_loop-Expired :
      (k at : ℕ) (r : Releasing)
      → IsSynced r.mgr
      → length r.mgr.workers < k
      → Returns (Expired at r.mgr) (release_loop order k at r)
  unfolding release_loop
  release_loop-Expired zero at r v enough = absurd (omega arith)
  release_loop-Expired (suc k) at r v enough =
      let m = r.mgr in
      let (first, e, shown) = Returns-value (peek_lem m.worker_heartbeats v.heartbeats) in
      elim (Option-cases first) [
        | inl none_left ↦
            rw (e, none_left)
              (returned (Expired-empty at m v (subst (Peeked m.worker_heartbeats) none_left shown)))
        | inr (id, is_first) ↦
            let (p, there, least) = subst (Peeked m.worker_heartbeats) is_first shown in
            let (w, here) = v.known id p there in
            let (t, o, s, beats) = v.listed id w here in
            let (i, cell, heartbeat, offer) = standing-info m.infos w t o s in
            rw (e, is_first)
              (rw (here, cell)
                (Returns-split (ltb at (i.last_heartbeat + worker_inactivity_timeout m.cfg))
                  (λ active. returned (
                    Expired-stop at m v λ j u t' h' beats'.
                      let le : beat t ≤ beat t' =
                        first-le m.worker_heartbeats p (beat t) (beat t') v.direction
                          (same_some there beats) (least j (beat t') beats') in
                      stop_late at i.last_heartbeat t t' (worker_inactivity_timeout m.cfg) heartbeat
                        le active))
                  (λ late.
                    Returns-then
                      (release_worker-Dismissed order visits id w i r v cell (e ∙ ap ok is_first))
                      λ q d.
                        Returns-weaken
                          (release_loop-Expired k at q d.synced (
                            omega
                              (arith, length-remove-lt id w m.workers here, ap length d.workers)))
                          λ n x.
                            Expired-step at id w i m q.mgr n v here (rw (cell, standing) refl) late
                              d x)))
      ]

  -- On a manager whose queues are in step with its workers, with fuel beyond the number of workers
  -- and for any order of ranging that visits each offer once, releaseInactiveWorkers returns; the
  -- queues are in step again, only workers that were there remain, with their counts of shards,
  -- none of them has a heartbeat older than the timeout by a millisecond or more, each worker
  -- within its timeout remains, and a worker that was released is counted no more.
  pub release_inactive_workers_lem :
      (fuel at : ℕ) (m : ManagerService)
      → IsSynced m
      → length m.workers < fuel
      → Returns (Expired at m) (release_inactive_workers order fuel at m)
  unfolding release_inactive_workers
  release_inactive_workers_lem fuel at m v enough =
      release_loop-Expired fuel at (record { mgr = m; released = [] }) v enough
