-- ===== src/Heap/Up.antt =====
-- up: the sift towards the root.
use libvegas.Base.{ℕ, zero, suc, ◌≤◌, ◌<◌, ◌≡◌, ◌≢◌, refl, arith, ltb, nat_beq, ◌∙◌}
use libvegas.Base.Run.{Returns, returned, Returns-then, Returns-weaken, Returns-split}
use libvegas.Heap.{Interface, parent, up_loop, up}
use libvegas.Heap.Order.{IsHeap, UpInv, Swapped, Swapped-rank, Laws}

swap-UpInv :
    (key key' : ℕ → ℕ) (n i : ℕ)
    → UpInv key n i
    → parent i ≢ i
    → key i < key (parent i)
    → Swapped key (parent i) i key'
    → UpInv key' n (parent i)
swap-UpInv key key' n i v moves below at = record {
  inside = omega (arith, v.inside);
  edges = λ c p q r. ground (arith, at c, at (parent c), v.edges c, v.bridged c);
  bridged =
      λ c p q r t. ground (arith, at c, at (parent (parent i)), v.edges c, v.edges (parent i));
}

module _ {S X A : Type 0} (h : Interface S X) {Keeps : S → Type 0} (laws : Laws h A Keeps) where
  open laws use {at, rank, less_rank, swap_Swapped}

  abbrev key : S → ℕ → ℕ
  key s c = rank (at s c)

  -- What a sift below `n` leaves: the same positions from `n` on, and the client's invariant.
  pub record Sifted (n : ℕ) (s t : S) : Type 0 where
    pub keeps : Keeps t
    pub size : h.len t ≡ h.len s
    pub beyond : (c : ℕ) → n ≤ c → at t c ≡ at s c
    pub heap : IsHeap (λ c. rank (at t c)) n

  up_loop_restores :
      (k : ℕ) (s : S) (j n : ℕ)
      → j < k
      → n ≤ h.len s
      → Keeps s
      → UpInv (key s) n j
      → Returns (Sifted n s) (up_loop h k s j)
  unfolding up_loop
  up_loop_restores zero s j n f m ks v = absurd (omega arith)
  up_loop_restores (suc k) s j n f m ks v =
      let hj : j < h.len s = omega (arith, v.inside) in
      let hi : parent j < h.len s = omega (arith, v.inside) in
      Returns-split (nat_beq (parent j) j)
        (λ e. returned (record {
          keeps = ks;
          size = refl;
          beyond = λ c q. refl;
          heap = λ c p q. v.edges c p q (ground arith);
        }))
        (λ e. rw (less_rank s j (parent j) ks hj hi) (
          Returns-split (ltb (key s j) (key s (parent j)))
            (λ below. Returns-then (swap_Swapped s (parent j) j ks hi hj) λ t w.
              Returns-weaken
                (up_loop_restores k t (parent j) n (ground arith) (omega (arith, w.1)) w.0 (
                  swap-UpInv (key s) (key t) n j v (ground arith) (ground arith)
                    (Swapped-rank rank (at s) (at t) (parent j) j w.2)))
                λ u z. record {
                  keeps = z.keeps;
                  size = z.size ∙ w.1;
                  beyond = λ c q. ground (arith, z.beyond c, w.2 c);
                  heap = z.heap;
                })
            (λ settled. returned (record {
              keeps = ks;
              size = refl;
              beyond = λ c q. refl;
              heap = λ c p q. ground (arith, v.edges c);
            }))))

  pub up_restores :
      (s : S) (j n : ℕ)
      → n ≤ h.len s
      → Keeps s
      → UpInv (λ c. rank (at s c)) n j
      → Returns (Sifted n s) (up h s j)
  unfolding up
  up_restores s j n m ks v = up_loop_restores (suc j) s j n (omega arith) m ks v
