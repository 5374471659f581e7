-- ===== src/Manager/Found.antt =====
-- resolveActiveWorker: the entry that is found or made for the worker.
use libvegas.Base.{
  ℕ, suc, ◌≤◌, ◌≡◌, ◌≢◌, refl, ◌∙◌, sym, false, [], Option, none, some, String, arith, nat_eq,
  string_eq, ◌==◌, inl, inr, Option-cases, Bool-cases,
}
use libvegas.Base.Int.{pos}
use libvegas.Base.Map.{
  Map, lookup, insert, lookup-insert, lookup-insert_self, beq_eq, beq_refl, ne_beq,
}
use libvegas.Manager.{ManagerService, WorkerInfo, ReassignmentOffer, set_info}
use libvegas.Manager.Acquire.{find_or_add_worker}
use libvegas.Manager.Sync.{standing, IsAllocated, IsSynced, standing-set}

abbrev pub new_worker : String → WorkerInfo
new_worker id = record {
  worker_id = id;
  last_heartbeat = 0;
  assignments = [];
  reassignment_offer = none;
  active_shard_count = pos 0;
}

-- The cell of the worker before its heartbeat is set.
pub record Found (m : ManagerService) (id : String) (w : ℕ) (n : ManagerService) : Type 0 where
  pub heartbeats : n.worker_heartbeats ≡ m.worker_heartbeats
  pub counts : n.worker_shard_count ≡ m.worker_shard_count
  pub closed : n.closed ≡ m.closed
  pub here : lookup id n.workers ≡ some w
  pub allocated : IsAllocated n.infos w
  pub others : (j : String) → (id == j) ≡ false → lookup j n.workers ≡ lookup j m.workers
  pub known : (j : String) (v : ℕ) → lookup j m.workers ≡ some v → lookup j n.workers ≡ some v
  pub infos :
      (v t : ℕ) (o : Option ReassignmentOffer)
      → standing m.infos v ≡ some (t, o)
      → standing n.infos v ≡ some (t, o)
  pub offers :
      (v t : ℕ) (o : ReassignmentOffer)
      → standing n.infos v ≡ some (t, some o)
      → standing m.infos v ≡ some (t, some o)
  pub distinct :
      (i j : String) (v : ℕ) → lookup i n.workers ≡ some v → lookup j n.workers ≡ some v → i ≡ j
  pub fresh : (v : ℕ) → n.next_info ≤ v → standing n.infos v ≡ none
  pub old : (v : ℕ) → lookup id m.workers ≡ some v → (w ≡ v) × (n ≡ m)
  pub new :
      lookup id m.workers ≡ none → (w ≡ m.next_info) × (lookup w n.infos ≡ some (new_worker id))
  pub cells : (v : ℕ) → (w == v) ≡ false → lookup v n.infos ≡ lookup v m.infos

known_still :
    (id j : String) (n w : ℕ) (workers : Map String ℕ)
    → lookup id workers ≡ none
    → lookup j workers ≡ some w
    → lookup j (insert id n workers) ≡ some w
known_still id j n w workers new h = elim (Bool-cases (id == j)) [
  | inl same ↦ absurd (cc (new, h, beq_eq id j same))
  | inr differ ↦ lookup-insert id j n workers ∙ rw differ h
]

newer_cell : (n w : ℕ) → suc n ≤ w → (n == w) ≡ false
newer_cell n w h = ne_beq n w λ e. omega (arith, e)

old_cell :
    (m : ManagerService) (w t : ℕ) (o : Option ReassignmentOffer)
    → IsSynced m
    → standing m.infos w ≡ some (t, o)
    → (m.next_info == w) ≡ false
old_cell m w t o v h = ne_beq m.next_info w λ e. absurd (cc (h, v.fresh w (omega (arith, e))))

new_no_offer :
    (id : String) (m : ManagerService) (w t : ℕ) (o : ReassignmentOffer)
    → standing (insert m.next_info (new_worker id) m.infos) w ≡ some (t, some o)
    → standing m.infos w ≡ some (t, some o)
new_no_offer id m w t o h =
    let e = standing-set m.infos m.next_info (new_worker id) w in
    elim (Bool-cases (m.next_info == w)) [
      | inl same ↦
          let bare : some (0, none) ≡ some (t, some o) = sym (rw same at e) ∙ h in absurd (cc bare)
      | inr differ ↦ sym (rw differ at e) ∙ h
    ]

-- The address of the new worker is not that of another one.
no_owner : (j : String) (m : ManagerService) → IsSynced m → lookup j m.workers ≢ some m.next_info
no_owner j m v h =
    let (t, o, s, p) = v.listed j m.next_info h in
    let gone = v.fresh m.next_info (omega arith) in cc (s, gone)

distinct_still :
    (id : String) (m : ManagerService)
    → IsSynced m
    → lookup id m.workers ≡ none
    → (i j : String) (w : ℕ) → lookup i (insert id m.next_info m.workers) ≡ some w
    → lookup j (insert id m.next_info m.workers) ≡ some w
    → i ≡ j
distinct_still id m v new i j w h k = ground (
  arith,
  lookup-insert id i m.next_info m.workers,
  lookup-insert id j m.next_info m.workers,
  v.distinct i j w,
  no_owner i m v,
  no_owner j m v,
  string_eq.beq_iff id i,
  string_eq.beq_iff id j,
)

pub find_or_add_worker-Found :
    (id : String) (m : ManagerService)
    → IsSynced m
    → Found m id (find_or_add_worker id m).0 (find_or_add_worker id m).1
unfolding find_or_add_worker set_info
find_or_add_worker-Found id m v = elim (Option-cases (lookup id m.workers)) [
  | inl new ↦
      rw (new, find_or_add_worker)
        (record {
          heartbeats = refl;
          counts = refl;
          closed = refl;
          here = lookup-insert_self id m.next_info m.workers;
          allocated = λ h. absurd (
              cc (
                h,
                standing-set m.infos m.next_info (new_worker id) m.next_info,
                beq_refl m.next_info,
              ));
          others = λ j h. lookup-insert id j m.next_info m.workers ∙ rw h refl;
          known = λ j w h. known_still id j m.next_info w m.workers new h;
          infos = λ w t o h.
              standing-set m.infos m.next_info (new_worker id) w ∙ rw (old_cell m w t o v h) h;
          offers = λ w t o h. new_no_offer id m w t o h;
          distinct = distinct_still id m v new;
          fresh = λ w h.
              standing-set m.infos m.next_info (new_worker id) w
              ∙ rw (newer_cell m.next_info w h) (v.fresh w (omega arith));
          old = λ u h. absurd (cc (new, h));
          new = λ h. (refl, lookup-insert_self m.next_info (new_worker id) m.infos);
          cells = λ u h. lookup-insert m.next_info u (new_worker id) m.infos ∙ rw h refl;
        })
  | inr (w, old) ↦
      let (t, o, s, p) = v.listed id w old in
      rw (old, find_or_add_worker)
        (record {
          heartbeats = refl;
          counts = refl;
          closed = refl;
          here = old;
          allocated = λ h. cc (h, s);
          others = λ j h. refl;
          known = λ j u h. h;
          infos = λ u t' o' h. h;
          offers = λ u t' o' h. h;
          distinct = v.distinct;
          fresh = v.fresh;
          old = λ u h. (cc (old, h), refl);
          new = λ h. absurd (cc (old, h));
          cells = λ u h. refl;
        })
]
