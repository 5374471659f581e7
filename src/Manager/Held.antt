-- ===== src/Manager/Held.antt =====
-- The shards that a manager has to do with, in its pool, with its workers, in offers and
-- notifications, as members of one lineage.
use libvegas.Base.{
  ◌+◌, ℕ, zero, suc, ◌≡◌, refl, ◌∙◌, sym, ap, subst, Bool, true, List, [], ◌∷◌, ◌++◌, Option, none,
  some, String, nat_eq, string_eq, ◌==◌, inl, inr, Bool-cases, take, drop,
}
use mathlib.Core.Logic.Or
use mathlib.Core.List.{Mem, mem-cons, not-mem-nil}
use libvegas.Base.Map.{Map, lookup, insert, remove, lookup-insert}
use libvegas.Messages.{Shard}
use libvegas.Manager.{ManagerService, WorkerInfo, WorkerAssignment, ReassignmentOffer, set_info}
use libvegas.Manager.Notes.{AreKnown}
use libvegas.Manager.Numbers.{AreNumbered, AreOf, insert-AreNumbered}

-- The id of the next assignment.
abbrev pub next_id : ManagerService → ℕ
next_id m = m.term + m.next_assignment_offset

module _ (known : String → Bool) where
  abbrev pub IsKnown : String → Type 0
  IsKnown s = known s ≡ true

  abbrev pub ArePooled : List Shard → Type 0
  ArePooled [] = Unit {0}
  ArePooled (s ∷ rest) = IsKnown s.shard_id × ArePooled rest

  abbrev pub AreHeld : Map String WorkerAssignment → Type 0
  AreHeld [] = Unit {0}
  AreHeld ((s, a) ∷ rest) = (IsKnown s × IsKnown a.shard.shard_id) × AreHeld rest

  abbrev pub AreOffered : Map ℕ (List Shard) → Type 0
  AreOffered [] = Unit {0}
  AreOffered ((w, shards) ∷ rest) = ArePooled shards × AreOffered rest

  abbrev pub IsOffered : Option ReassignmentOffer → Type 0
  IsOffered none = Unit {0}
  IsOffered (some o) = AreOffered o.shards

  abbrev pub IsHeld : WorkerInfo → Type 0
  IsHeld i = AreHeld i.assignments × IsOffered i.reassignment_offer

  pub record IsOurs (m : ManagerService) : Type 0 where
    pub cells : (w : ℕ) (i : WorkerInfo) → lookup w m.infos ≡ some i → IsHeld i
    pub pool : ArePooled m.unassigned_shards
    pub closed : AreKnown IsKnown m.closed
    pub numbers : AreNumbered m.infos (next_id m)

  pub set_info-cells :
      (m : ManagerService) (w : ℕ) (i : WorkerInfo)
      → IsOurs m
      → IsHeld i
      → (u : ℕ) (j : WorkerInfo) → lookup u (insert w i m.infos) ≡ some j
      → IsHeld j
  set_info-cells m w i o h u j e = elim (Bool-cases (w == u)) [
    | inl same ↦
        let here : some i ≡ some j = sym (lookup-insert w u i m.infos ∙ rw same refl) ∙ e in
        let one : i ≡ j = cc here in subst IsHeld one h
    | inr differ ↦ o.cells u j (sym (lookup-insert w u i m.infos ∙ rw differ refl) ∙ e)
  ]

  -- A cell that is written without a new id.
  pub set_info-IsOurs :
      (m : ManagerService) (w : ℕ) (i : WorkerInfo)
      → IsOurs m
      → IsHeld i
      → AreOf m.infos w i.assignments
      → IsOurs (set_info m w i)
  unfolding set_info
  set_info-IsOurs m w i o h of = record {
    cells = set_info-cells m w i o h;
    pool = o.pool;
    closed = o.closed;
    numbers = insert-AreNumbered m.infos (next_id m) w i o.numbers of;
  }

  pub insert-AreHeld :
      (s : String) (a : WorkerAssignment) (m : Map String WorkerAssignment)
      → IsKnown s
      → IsKnown a.shard.shard_id
      → AreHeld m
      → AreHeld (insert s a m)
  unfolding insert
  insert-AreHeld s a [] h k t = ((h, k), tt)
  insert-AreHeld s a ((j, b) ∷ rest) h k (f, t) = elim (Bool-cases (j == s)) [
    | inl same ↦ rw same ((h, k), t)
    | inr differ ↦ rw differ (f, insert-AreHeld s a rest h k t)
  ]

  pub remove-AreHeld :
      (s : String) (m : Map String WorkerAssignment) → AreHeld m → AreHeld (remove s m)
  unfolding remove
  remove-AreHeld s [] t = tt
  remove-AreHeld s ((j, b) ∷ rest) (f, t) = elim (Bool-cases (j == s)) [
    | inl same ↦ rw same (remove-AreHeld s rest t)
    | inr differ ↦ rw differ (f, remove-AreHeld s rest t)
  ]

  pub append-ArePooled :
      (xs : List Shard) (s : Shard) → ArePooled xs → IsKnown s.shard_id → ArePooled (xs ++ s ∷ [])
  append-ArePooled [] s t h = (h, tt)
  append-ArePooled (x ∷ xs) s (f, t) h = (f, append-ArePooled xs s t h)

  pub take-ArePooled : (n : ℕ) (xs : List Shard) → ArePooled xs → ArePooled (take n xs)
  take-ArePooled zero xs t = tt
  take-ArePooled (suc n) [] t = tt
  take-ArePooled (suc n) (x ∷ xs) (f, t) = (f, take-ArePooled n xs t)

  pub drop-ArePooled : (n : ℕ) (xs : List Shard) → ArePooled xs → ArePooled (drop n xs)
  drop-ArePooled zero xs t = t
  drop-ArePooled (suc n) [] t = tt
  drop-ArePooled (suc n) (x ∷ xs) (f, t) = drop-ArePooled n xs t

  pub insert-AreOffered :
      (w : ℕ) (shards : List Shard) (m : Map ℕ (List Shard))
      → ArePooled shards
      → AreOffered m
      → AreOffered (insert w shards m)
  unfolding insert
  insert-AreOffered w shards [] h t = (h, tt)
  insert-AreOffered w shards ((j, b) ∷ rest) h (f, t) = elim (Bool-cases (j == w)) [
    | inl same ↦ rw same (h, t)
    | inr differ ↦ rw differ (f, insert-AreOffered w shards rest h t)
  ]

  pub pooled_member : (xs : List Shard) → ArePooled xs → (s : Shard) → Mem s xs → IsKnown s.shard_id
  pooled_member [] t s m = absurd (not-mem-nil m)
  pooled_member (x ∷ xs) (f, t) s m =
      Or.elim (hlevel) (mem-cons.0 m) (λ e. subst (λ y. IsKnown y.shard_id) (sym e) f)
        (pooled_member xs t s)

  pub held_member :
      (m : Map String WorkerAssignment)
      → AreHeld m
      → (e : String × WorkerAssignment) → Mem e m
      → IsKnown e.0 × IsKnown e.1.shard.shard_id
  held_member [] t e m = absurd (not-mem-nil m)
  held_member ((s, a) ∷ rest) (f, t) e m =
      Or.elim (hlevel) (mem-cons.0 m)
        (λ p. subst (λ q. IsKnown q.0 × IsKnown q.1.shard.shard_id) (sym p) f)
        (held_member rest t e)

  pub offered_member :
      (m : Map ℕ (List Shard))
      → AreOffered m
      → (w : ℕ) (shards : List Shard) → Mem (w, shards) m
      → (s : Shard) → Mem s shards
      → IsKnown s.shard_id
  offered_member [] t w shards m s k = absurd (not-mem-nil m)
  offered_member ((u, others) ∷ rest) (f, t) w shards m s k =
      Or.elim (hlevel) (mem-cons.0 m)
        (λ p. pooled_member others f s (subst (Mem s) (ap (λ q. q.1) p) k))
        (λ m'. offered_member rest t w shards m' s k)
