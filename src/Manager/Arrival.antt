-- ===== src/Manager/Arrival.antt =====
-- resolveActiveWorker: the heartbeat of the worker that asks.
use libvegas.Base.{
  ℕ, ◌≤◌, ◌≡◌, refl, ◌∙◌, sym, ap, subst, true, false, Option, none, some, String, nat_eq,
  string_eq, ◌==◌, if◌then◌else◌, inl, inr, Option-cases, Bool-cases,
}
use libvegas.Base.Run.{Returns, returned, Returns-then}
use libvegas.Base.Map.{
  Map, lookup, insert, lookup-insert, lookup-insert_self, beq_eq, beq_refl, ne_beq, beq_ne,
}
use libvegas.Queue.{PriorityQueue}
use libvegas.Queue.Valid.{IsValid, priority_of}
use libvegas.Queue.Insert.{Pushed}
use libvegas.Queue.Update.{push_lem}
use libvegas.Manager.{ManagerService, WorkerInfo, ReassignmentOffer, set_info}
use libvegas.Manager.Acquire.{find_or_add_worker, resolve_active_worker}
use libvegas.Manager.Sync.{
  beat, standing, IsAllocated, IsSynced, IsNoted, weaken-IsNoted, allocated_info, standing-set,
}
use libvegas.Manager.Found.{Found, new_worker, find_or_add_worker-Found}

-- What holds after the worker `id` called at `at`: it is `w`, with this heartbeat.
pub record Arrived (m : ManagerService) (id : String) (at w : ℕ) (n : ManagerService) : Type 0 where
  pub synced : IsSynced n
  pub here : lookup id n.workers ≡ some w
  pub heartbeat : (o : Option ReassignmentOffer) × (standing n.infos w ≡ some (at, o))
  pub closed : n.closed ≡ m.closed
  pub others : (j : String) → (id == j) ≡ false → lookup j n.workers ≡ lookup j m.workers
  pub returning :
      (u : ℕ) (i : WorkerInfo)
      → lookup id m.workers ≡ some u
      → lookup u m.infos ≡ some i
      → (w ≡ u)
        × (n.workers ≡ m.workers)
        × (lookup w n.infos ≡ some (record i { last_heartbeat = at }))
  pub first :
      lookup id m.workers ≡ none
      → (w ≡ m.next_info)
        × (lookup w n.infos ≡ some (record (new_worker id) { last_heartbeat = at }))
  pub cells : (u : ℕ) → (w == u) ≡ false → lookup u n.infos ≡ lookup u m.infos

-- The worker's cell and its place in the queue get the time of the call.
module _ (m n : ManagerService) (id : String) (at w : ℕ) (i : WorkerInfo) (q : PriorityQueue String)
    (v : IsSynced m) (f : Found m id w n) (cell : lookup w n.infos ≡ some i)
    (p : Pushed n.worker_heartbeats id (beat at) q) where
  abbrev after : Map ℕ WorkerInfo
  after = insert w (record i { last_heartbeat = at }) n.infos

  after_set :
      (u : ℕ)
      → standing after u ≡ (if w == u then some (at, i.reassignment_offer) else standing n.infos u)
  after_set u = standing-set n.infos w (record i { last_heartbeat = at }) u

  after_listed :
      (j : String) (u : ℕ)
      → lookup j n.workers ≡ some u
      → (t : ℕ) × (o : Option ReassignmentOffer) × (standing after u ≡ some (t, o))
        × (priority_of q j ≡ some (beat t))
  after_listed j u h = elim (Bool-cases (id == j)) [
    | inl same ↦
        let mine : lookup id n.workers ≡ some u = rw (beq_eq id j same) h in
        let here : w ≡ u = cc (mine, f.here) in
        (
          at,
          i.reassignment_offer,
          after_set u ∙ rw (← here) (rw (beq_refl w) refl),
          p.holds j ∙ rw same refl,
        )
    | inr differ ↦
        let (t, o, s, b) = v.listed j u (sym (f.others j differ) ∙ h) in
        let apart : (w == u) ≡ false =
          ne_beq w u λ e. beq_ne id j differ (f.distinct id j u (rw (← e) f.here) h) in
        (
          t,
          o,
          after_set u ∙ rw apart (f.infos u t o s),
          p.holds j ∙ rw differ (ap (λ x. priority_of x j) f.heartbeats ∙ b),
        )
  ]

  was : standing n.infos w ≡ some (i.last_heartbeat, i.reassignment_offer)
  was = rw (cell, standing) refl

  after_same : (u : ℕ) → (w == u) ≡ true → standing after u ≡ some (at, i.reassignment_offer)
  after_same u same = after_set u ∙ rw same refl

  after_other : (u : ℕ) → (w == u) ≡ false → standing after u ≡ standing n.infos u
  after_other u apart = after_set u ∙ rw apart refl

  after-IsAllocated : (u : ℕ) → IsAllocated m.infos u → IsAllocated after u
  after-IsAllocated u h = elim (Option-cases (standing m.infos u)) [
    | inl none_there ↦ absurd (h none_there)
    | inr ((t, o), there) ↦ elim (Bool-cases (w == u)) [
      | inl same ↦ λ e. cc (e, after_same u same)
      | inr apart ↦ λ e. cc (e, after_other u apart, f.infos u t o there)
    ]
  ]

  after_offers :
      (u t : ℕ) (o : ReassignmentOffer)
      → standing after u ≡ some (t, some o)
      → (t' : ℕ) × (standing m.infos u ≡ some (t', some o))
  after_offers u t o s = elim (Bool-cases (w == u)) [
    | inl same ↦
        let offer : i.reassignment_offer ≡ some o = cc (s, after_same u same) in
        let held : standing n.infos u ≡ some (i.last_heartbeat, some o) =
          rw (← offer) (rw (← beq_eq w u same) was) in
        (i.last_heartbeat, f.offers u i.last_heartbeat o held)
    | inr apart ↦ (t, f.offers u t o (sym (after_other u apart) ∙ s))
  ]

  after_fresh : (u : ℕ) → n.next_info ≤ u → standing after u ≡ none
  after_fresh u h =
      let gone = f.fresh u h in after_other u (ne_beq w u λ e. cc (gone, was, e)) ∙ gone

  after_known :
      (j : String) (b : ℕ) → priority_of q j ≡ some b → (u : ℕ) × (lookup j n.workers ≡ some u)
  after_known j b h = elim (Bool-cases (id == j)) [
    | inl same ↦ (w, rw (← beq_eq id j same) f.here)
    | inr differ ↦
        let there : priority_of q j ≡ priority_of n.worker_heartbeats j =
          p.holds j ∙ rw differ refl in
        let (u, k) = v.known j b (sym (ap (λ x. priority_of x j) f.heartbeats) ∙ sym there ∙ h) in
        (u, f.known j u k)
  ]

  after-Arrived :
      Arrived m id at w
        (record (set_info n w (record i { last_heartbeat = at })) { worker_heartbeats = q })
  unfolding set_info
  after-Arrived = record {
    synced = record {
      heartbeats = p.valid;
      direction = p.flag ∙ ap (λ q. q.pq.reversed) f.heartbeats ∙ v.direction;
      counts = subst IsValid (sym f.counts) v.counts;
      listed = after_listed;
      known = after_known;
      offers = λ u t o old shards s k.
          let (t', h) = after_offers u t o s in
          after-IsAllocated old (v.offers u t' o old shards h k);
      counted = λ u b h.
          after-IsAllocated u (v.counted u b (sym (ap (λ x. priority_of x u) f.counts) ∙ h));
      noted =
          subst (IsNoted after) (sym f.closed)
            (weaken-IsNoted m.infos after m.closed after-IsAllocated v.noted);
      distinct = f.distinct;
      fresh = after_fresh;
    };
    here = f.here;
    heartbeat = (i.reassignment_offer, after_set w ∙ rw (beq_refl w) refl);
    others = f.others;
    closed = f.closed;
    returning = λ u j h there.
        let (one, same) = f.old u h in
        let mine : lookup w m.infos ≡ some j = rw one there in
        let cell' : lookup w m.infos ≡ some i = sym (ap (λ x. lookup w x.infos) same) ∙ cell in
        let same_info : i ≡ j = cc (mine, cell') in
        (one, ap (λ x. x.workers) same, lookup-insert_self w _ n.infos ∙ rw same_info refl);
    first = λ h.
        let (one, made) = f.new h in
        let same_info : i ≡ new_worker id = cc (made, cell) in
        (one, lookup-insert_self w _ n.infos ∙ rw same_info refl);
    cells = λ u apart. lookup-insert w u _ n.infos ∙ rw apart (f.cells u apart);
  }

-- On a manager whose queues are in step with its workers, resolveActiveWorker returns the worker
-- that the manager has under the id, with its assignments, its offer and its count as they were,
-- or a new one without any if it has none, with the time of the call as its heartbeat; the queues
-- are in step again, the other ids have the workers they had and the other workers are as they
-- were.
pub resolve_active_worker_lem :
    (id : String) (at : ℕ) (m : ManagerService)
    → IsSynced m
    → Returns (λ r. Arrived m id at r.0 r.1) (resolve_active_worker id at m)
unfolding resolve_active_worker
resolve_active_worker_lem id at m v =
    let (w, n) = find_or_add_worker id m in
    let f = find_or_add_worker-Found id m v in
    let (i, cell) = allocated_info n.infos w f.allocated in
    rw cell (
      Returns-then
        (push_lem n.worker_heartbeats id (beat at) (subst IsValid (sym f.heartbeats) v.heartbeats))
        λ q p. returned (after-Arrived m n id at w i q v f cell p))
