-- ===== src/Heap/Down.antt =====
-- down: the sift towards the leaves, and `settle`, which sifts either way.
use libvegas.Base.{
  ℕ, zero, suc, ◌+◌, ◌*◌, ◌≤◌, ◌<◌, ◌≡◌, ◌⊎◌, inl, inr, refl, arith, ltb, leb, ◌∙◌, sym, ap, subst,
  true, false, Bool-cases,
}
use libvegas.Base.Run.{Returns, returned, Returns-then, Returns-weaken, Returns-split}
use libvegas.Heap.{Interface, parent, smaller_child, down_loop, down, settle}
use libvegas.Heap.Order.{IsHeap, UpInv, FixInv, Swapped, Swapped-rank, Laws}
use libvegas.Heap.Up.{Sifted, up_restores}

-- `m` is the child of `i` that is not greater than its sibling.
record IsSmallerChild (key : ℕ → ℕ) (n i m : ℕ) : Type 0 where
  inside : m < n
  child : (m ≡ 2 * i + 1) ⊎ (m ≡ 2 * i + 2)
  least : (c : ℕ) → 0 < c → c < n → parent c ≡ i → key m ≤ key c

swap-FixInv :
    (key key' : ℕ → ℕ) (n i m : ℕ)
    → FixInv key n i
    → IsSmallerChild key n i m
    → key m < key i
    → Swapped key i m key'
    → FixInv key' n m × (key' (parent m) ≤ key' m)
swap-FixInv key key' n i m v s below at = (
  record {
    inside = s.inside;
    bridged = λ c p q r t. ground (v.edges c, at (parent m), at c, arith);
    edges = λ c p q r t. ground (v.bridged m, v.edges c, s.least c, at (parent c), at c, arith);
  },
  ground (arith, at m, at (parent m)),
)

-- Of two siblings the one that is not greater is least.
child_least :
    (key : ℕ → ℕ) (i c b a : ℕ)
    → 0 < c
    → parent c ≡ i
    → key b ≤ key a
    → ((b ≡ 2 * i + 1) × (a ≡ 2 * i + 2)) ⊎ ((b ≡ 2 * i + 2) × (a ≡ 2 * i + 1))
    → key b ≤ key c
child_least key i c b a p q le e = ground arith

settled-UpInv :
    (key : ℕ → ℕ) (n i : ℕ)
    → FixInv key n i
    → ((c : ℕ) → 0 < c → c < n → parent c ≡ i → key i ≤ key c)
    → UpInv key n i
settled-UpInv key n i v below = record {
  inside = v.inside;
  edges = λ c p q r. ground (arith, v.edges c, below c);
  bridged = v.bridged;
}

UpInv-IsHeap : (key : ℕ → ℕ) (n i : ℕ) → UpInv key n i → key (parent i) ≤ key i → IsHeap key n
UpInv-IsHeap key n i u e c p q = ground (arith, u.edges c)

module _ {S X A : Type 0} (h : Interface S X) {Keeps : S → Type 0} (laws : Laws h A Keeps) where
  open laws use {at, rank, less_rank, swap_Swapped}

  abbrev key : S → ℕ → ℕ
  key s c = rank (at s c)

  smaller_child-IsSmallerChild :
      (s : S) (i n : ℕ)
      → n ≤ h.len s
      → Keeps s
      → 2 * i + 1 < n
      → Returns (IsSmallerChild (key s) n i) (smaller_child h s (2 * i + 1) n)
  unfolding smaller_child
  smaller_child-IsSmallerChild s i n m ks p =
      Returns-split (ltb (2 * i + 1 + 1) n)
        (λ e.
          rw (less_rank s (2 * i + 1 + 1) (2 * i + 1) ks (ground arith) (omega arith))
            (elim (Bool-cases (ltb (key s (2 * i + 1 + 1)) (key s (2 * i + 1)))) [
              | inl q ↦ rw q (
                  returned (record {
                    inside = ground arith;
                    child = inr (omega arith);
                    least = λ c a b d.
                        child_least (key s) i c (2 * i + 1 + 1) (2 * i + 1) a d (ground arith)
                          (omega arith);
                  }))
              | inr q ↦ rw q (
                  returned (record {
                    inside = p;
                    child = inl refl;
                    least = λ c a b d.
                        child_least (key s) i c (2 * i + 1) (2 * i + 1 + 1) a d (ground arith)
                          (omega arith);
                  }))
            ]))
        (λ e. returned (record { inside = p; child = inl refl; least = λ c a b d. ground arith }))

  -- The sift ended where it began, with only the edge above in doubt, or it ended lower in a heap.
  abbrev pub Settled : ℕ → ℕ → S → S × ℕ → Type 0
  Settled n i s r =
      ((r.1 ≡ i) × (r.0 ≡ s) × UpInv (key s) n i) ⊎ ((i < r.1) × Sifted h laws n s r.0)

  sunk :
      (s t : S) (i j n : ℕ)
      → i < n
      → i < j
      → j < n
      → Keeps t × (h.len t ≡ h.len s) × Swapped (at s) i j (at t)
      → key t (parent j) ≤ key t j
      → (r : S × ℕ) → Settled n j t r
      → Settled n i s r
  sunk s t i j n hi below hj w e r (inl (last, same, u)) = inr (
    omega arith,
    record {
      keeps = subst Keeps (sym same) w.0;
      size = ap h.len same ∙ w.1;
      beyond = λ c q. rw same (ground (arith, w.2 c));
      heap = rw same (UpInv-IsHeap (key t) n j u e);
    },
  )
  sunk s t i j n hi below hj w e r (inr (lower, z)) = inr (
    omega arith,
    record {
      keeps = z.keeps;
      size = z.size ∙ w.1;
      beyond = λ c q. ground (arith, z.beyond c, w.2 c);
      heap = z.heap;
    },
  )

  down_loop_restores :
      (k : ℕ) (s : S) (i n : ℕ)
      → n < k + i
      → n ≤ h.len s
      → Keeps s
      → FixInv (key s) n i
      → Returns (Settled n i s) (down_loop h k s i n)
  unfolding down_loop
  down_loop_restores zero s i n f m ks v = absurd (omega (arith, v.inside))
  down_loop_restores (suc k) s i n f m ks v =
      let hi : i < h.len s = omega (arith, v.inside) in
      Returns-split (leb n (2 * i + 1))
        (λ e.
          returned
            (inl (refl, refl, settled-UpInv (key s) n i v (λ c p q r. absurd (ground arith)))))
        (λ e. Returns-then (smaller_child-IsSmallerChild s i n m ks (ground arith)) λ j c.
          let hj : j < h.len s = omega (arith, c.inside) in
          rw (less_rank s j i ks hj hi) (
            Returns-split (ltb (key s j) (key s i))
              (λ below. Returns-then (swap_Swapped s i j ks hi hj) λ t w.
                let fx =
                  swap-FixInv (key s) (key t) n i j v c (ground arith)
                    (Swapped-rank rank (at s) (at t) i j w.2) in
                Returns-weaken
                  (down_loop_restores k t j n (omega (arith, c.child)) (omega (arith, w.1)) w.0
                    fx.0)
                  (sunk s t i j n v.inside (omega (arith, c.child)) c.inside w fx.1))
              (λ settled. returned (
                inl
                  (refl, refl, settled-UpInv (key s) n i v λ d p q r. ground (arith, c.least d))))))

  pub down_restores :
      (s : S) (i n : ℕ)
      → n ≤ h.len s
      → Keeps s
      → FixInv (λ c. rank (at s c)) n i
      → Returns
          (λ r.
            ((r.1 ≡ false) × (r.0 ≡ s) × UpInv (λ c. rank (at s c)) n i)
            ⊎ ((r.1 ≡ true) × Sifted h laws n s r.0))
          (down h s i n)
  unfolding down
  down_restores s i n m ks v =
      Returns-then (down_loop_restores (suc n) s i n (omega arith) m ks v) λ r o. returned (elim o [
        | inl (e, same, u) ↦ inl (ground arith, same, u)
        | inr (e, z) ↦ inr (ground arith, z)
      ])

  -- From a heap with one entry changed, `settle` restores the heap.
  pub settle_restores :
      (s : S) (i n : ℕ)
      → n ≤ h.len s
      → Keeps s
      → FixInv (λ c. rank (at s c)) n i
      → Returns (Sifted h laws n s) (settle h s i n)
  unfolding settle
  settle_restores s i n m ks v = Returns-then (down_restores s i n m ks v) λ (t, moved) o. elim o [
    | inl (e, same, u) ↦ rw (e, same) (up_restores h laws s i n m ks u)
    | inr (e, z) ↦ rw e (returned z)
  ]
