-- ===== src/Manager/Numbers.antt =====
-- The ids of assignments: each below the next one that is given, and no two of them the same.
use libvegas.Base.{
  ℕ, suc, ◌<◌, ◌≤◌, ◌≡◌, refl, ◌∙◌, sym, ap, subst, Bool, true, false, [], ◌∷◌, none, some, String,
  arith, nat_eq, string_eq, ◌==◌, nat_beq, nat_beq_iff, ◌||◌, ◌&&◌, if◌then◌else◌, ◌⊎◌, inl, inr,
  Bool-cases,
}
use mathlib.Core.Logic.Or
use mathlib.Core.List.{Mem, mem-cons, not-mem-nil}
use libvegas.Base.Map.{Map, lookup, insert, remove, lookup-insert, beq_eq, beq_refl}
use libvegas.Manager.Sync.{some-value}
use libvegas.Manager.{WorkerInfo, WorkerAssignment}

-- Is there an assignment of this id under the shard?
abbrev pub has_id : String → ℕ → Map String WorkerAssignment → Bool
has_id s id [] = false
has_id s id ((j, a) ∷ rest) = (j == s && nat_beq a.id id) || has_id s id rest

pub has_id-remove :
    (k s : String) (id : ℕ) (l : Map String WorkerAssignment)
    → has_id s id (remove k l) ≡ true
    → has_id s id l ≡ true
unfolding remove
has_id-remove k s id [] h = h
has_id-remove k s id ((j, b) ∷ rest) h = ground (arith, has_id-remove k s id rest)

either_true : (b c d : Bool) → ((b && c) || d) ≡ true → ((b ≡ true) × (c ≡ true)) ⊎ (d ≡ true)
either_true true true d h = inl (refl, refl)
either_true true false d h = inr h
either_true false c d h = inr h

later_true : (b d : Bool) → d ≡ true → (b || d) ≡ true
later_true true d h = refl
later_true false d h = h

-- A new entry, or one that was there.
pub has_id-insert :
    (k s : String) (id : ℕ) (a : WorkerAssignment) (l : Map String WorkerAssignment)
    → has_id s id (insert k a l) ≡ true
    → ((k ≡ s) × (a.id ≡ id)) ⊎ (has_id s id l ≡ true)
unfolding insert
has_id-insert k s id a [] h = elim (either_true (k == s) (nat_beq a.id id) false h) [
  | inl (p, q) ↦ inl (beq_eq k s p, (nat_beq_iff a.id id).0 q)
  | inr e ↦ inr e
]
has_id-insert k s id a ((j, b) ∷ rest) h = elim (Bool-cases (j == k)) [
  | inl same ↦ elim (either_true (k == s) (nat_beq a.id id) (has_id s id rest) (rw same at h)) [
    | inl (p, q) ↦ inl (beq_eq k s p, (nat_beq_iff a.id id).0 q)
    | inr e ↦ inr (later_true (j == s && nat_beq b.id id) (has_id s id rest) e)
  ]
  | inr differ ↦
      elim (either_true (j == s) (nat_beq b.id id) (has_id s id (insert k a rest))
        (rw differ at h)) [
          | inl (p, q) ↦ inr (rw (p, q) refl)
          | inr e ↦ elim (has_id-insert k s id a rest e) [
            | inl new ↦ inl new
            | inr old ↦ inr (later_true (j == s && nat_beq b.id id) (has_id s id rest) old)
          ]
        ]
]

pub has_id-Mem :
    (s : String) (a : WorkerAssignment) (l : Map String WorkerAssignment)
    → Mem (s, a) l
    → has_id s a.id l ≡ true
has_id-Mem s a [] m = absurd (not-mem-nil m)
has_id-Mem s a ((j, b) ∷ rest) m =
    Or.elim (hlevel) (mem-cons.0 m)
      (λ e.
        subst (λ p. has_id s a.id (p ∷ rest) ≡ true) e
          (rw (beq_refl s, (nat_beq_iff a.id a.id).1 refl) refl))
      (λ m'. later_true (j == s && nat_beq b.id a.id) (has_id s a.id rest) (has_id-Mem s a rest m'))

-- Does the cell have one?
abbrev pub carries : Map ℕ WorkerInfo → ℕ → String → ℕ → Bool
carries infos w s id = elim (lookup w infos) [ none ↦ false | some i ↦ has_id s id i.assignments ]

pub record AreNumbered (infos : Map ℕ WorkerInfo) (bound : ℕ) : Type 0 where
  pub issued : (w : ℕ) (s : String) (id : ℕ) → carries infos w s id ≡ true → id < bound
  pub apart :
      (w u : ℕ) (s t : String) (id : ℕ)
      → carries infos w s id ≡ true
      → carries infos u t id ≡ true
      → (w ≡ u) × (s ≡ t)

-- The assignments are under ids that the cell has for their shards.
abbrev pub AreOf : Map ℕ WorkerInfo → ℕ → Map String WorkerAssignment → Type 0
AreOf infos w l = (s : String) (id : ℕ) → has_id s id l ≡ true → carries infos w s id ≡ true

carries-insert :
    (infos : Map ℕ WorkerInfo) (w u : ℕ) (i : WorkerInfo) (s : String) (id : ℕ)
    → carries (insert w i infos) u s id
      ≡ (if w == u then has_id s id i.assignments else carries infos u s id)
carries-insert infos w u i s id = elim (Bool-cases (w == u)) [
  | inl same ↦ rw (lookup-insert w u i infos, carries) (rw same refl)
  | inr differ ↦ rw (lookup-insert w u i infos, carries) (rw differ refl)
]

-- A cell that is written without a new id.
was_there :
    (infos : Map ℕ WorkerInfo) (w u : ℕ) (i : WorkerInfo) (s : String) (id : ℕ)
    → AreOf infos w i.assignments
    → carries (insert w i infos) u s id ≡ true
    → carries infos u s id ≡ true
was_there infos w u i s id of h = elim (Bool-cases (w == u)) [
  | inl same ↦
      let now : has_id s id i.assignments ≡ true =
        sym (carries-insert infos w u i s id ∙ rw same refl) ∙ h in
      subst (λ v. carries infos v s id ≡ true) (beq_eq w u same) (of s id now)
  | inr differ ↦ sym (carries-insert infos w u i s id ∙ rw differ refl) ∙ h
]

pub insert-AreNumbered :
    (infos : Map ℕ WorkerInfo) (bound w : ℕ) (i : WorkerInfo)
    → AreNumbered infos bound
    → AreOf infos w i.assignments
    → AreNumbered (insert w i infos) bound
insert-AreNumbered infos bound w i n of = record {
  issued = λ u s id h. n.issued u s id (was_there infos w u i s id of h);
  apart = λ u v s t id h k.
      n.apart u v s t id (was_there infos w u i s id of h) (was_there infos w v i t id of k);
}

-- A later bound.
pub weaken-AreNumbered :
    (infos : Map ℕ WorkerInfo) (bound limit : ℕ)
    → bound ≤ limit
    → AreNumbered infos bound
    → AreNumbered infos limit
weaken-AreNumbered infos bound limit up n = record {
  issued = λ w s id h. omega (arith, n.issued w s id h);
  apart = n.apart;
}

-- The cell of `w` gets an assignment under the next id.
module _ (infos : Map ℕ WorkerInfo) (bound w : ℕ) (i : WorkerInfo) (k : String)
    (a : WorkerAssignment) (n : AreNumbered infos bound) (l : Map String WorkerAssignment)
    (of : AreOf infos w l) (next : a.id ≡ bound) (grown : i.assignments ≡ insert k a l) where
  given_or_had :
      (u : ℕ) (s : String) (id : ℕ)
      → carries (insert w i infos) u s id ≡ true
      → ((w ≡ u) × (k ≡ s) × (id ≡ bound)) ⊎ (carries infos u s id ≡ true)
  given_or_had u s id h = elim (Bool-cases (w == u)) [
    | inl same ↦
        let now : has_id s id i.assignments ≡ true =
          sym (carries-insert infos w u i s id ∙ rw same refl) ∙ h in
        elim (has_id-insert k s id a l (subst (λ x. has_id s id x ≡ true) grown now)) [
          | inl (named, new) ↦ inl (beq_eq w u same, named, sym new ∙ next)
          | inr old ↦ inr (subst (λ v. carries infos v s id ≡ true) (beq_eq w u same) (of s id old))
        ]
    | inr differ ↦ inr (sym (carries-insert infos w u i s id ∙ rw differ refl) ∙ h)
  ]

  pub give-AreNumbered : AreNumbered (insert w i infos) (suc bound)
  give-AreNumbered = record {
    issued = λ u s id h. elim (given_or_had u s id h) [
      | inl (_, _, new) ↦ omega arith
      | inr had ↦ omega (arith, n.issued u s id had)
    ];
    apart = λ u v s t id h h'. elim (given_or_had u s id h) [
      | inl (here, named, new) ↦ elim (given_or_had v t id h') [
        | inl (here', named', _) ↦ (sym here ∙ here', sym named ∙ named')
        | inr had ↦ absurd (omega (arith, n.issued v t id had))
      ]
      | inr had ↦ elim (given_or_had v t id h') [
        | inl (_, _, new) ↦ absurd (omega (arith, n.issued u s id had))
        | inr had' ↦ n.apart u v s t id had had'
      ]
    ];
  }

module _ (infos : Map ℕ WorkerInfo) (w : ℕ) (i : WorkerInfo) (cell : lookup w infos ≡ some i) where
  pub same-AreOf : AreOf infos w i.assignments
  same-AreOf s id h = rw (cell, carries) h

  pub remove-AreOf : (k : String) → AreOf infos w (remove k i.assignments)
  remove-AreOf k s id h = same-AreOf s id (has_id-remove k s id i.assignments h)

  -- An entry that is written again under its id.
  pub rewrite-AreOf :
      (k : String) (a b : WorkerAssignment)
      → has_id k a.id i.assignments ≡ true
      → b.id ≡ a.id
      → AreOf infos w (insert k b i.assignments)
  rewrite-AreOf k a b had same s id h = elim (has_id-insert k s id b i.assignments h) [
    | inl (named, e) ↦ same-AreOf s id (
        subst (λ t. has_id t id i.assignments ≡ true) named
          (subst (λ x. has_id k x i.assignments ≡ true) (sym same ∙ e) had))
    | inr old ↦ same-AreOf s id old
  ]

pub has_id-lookup :
    (s : String) (a : WorkerAssignment) (l : Map String WorkerAssignment)
    → lookup s l ≡ some a
    → has_id s a.id l ≡ true
unfolding lookup
has_id-lookup s a [] h = absurd (cc h)
has_id-lookup s a ((j, b) ∷ rest) h = elim (Bool-cases (j == s)) [
  | inl same ↦
      let one : some b ≡ some a = rw same at h in
      let id : b.id ≡ a.id = ap (λ x. x.id) (some-value one) in
      rw (same, (nat_beq_iff b.id a.id).1 id) refl
  | inr differ ↦
      later_true (j == s && nat_beq b.id a.id) (has_id s a.id rest)
        (has_id-lookup s a rest (rw differ at h))
]
