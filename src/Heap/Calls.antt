-- ===== src/Heap/Calls.antt =====
-- heap.Push, heap.Pop, heap.Fix and heap.Remove on a heap.
use libvegas.Base.{
  ℕ, zero, suc, ◌-◌, ◌≤◌, ◌<◌, ◌≡◌, ◌≢◌, inl, inr, refl, arith, nat_beq, ◌∙◌, Bool-cases, ap,
}
use libvegas.Base.Run.{ok, Returns, returned, Returns-then, Returns-weaken}
use libvegas.Heap.{Interface, parent, down, push, pop, fix, remove}
use libvegas.Heap.Order.{IsHeap, FixInv, Swapped, Swapped-rank, Laws}
use libvegas.Heap.Up.{Sifted, up_restores}
use libvegas.Heap.Down.{settle_restores, down_restores}

-- One entry of a heap may take any rank.
pub changed-FixInv :
    (key key' : ℕ → ℕ) (n i : ℕ)
    → i < n
    → IsHeap key n
    → ((c : ℕ) → c ≢ i → c < n → key' c ≡ key c)
    → FixInv key' n i
changed-FixInv key key' n i p h same = record {
  inside = p;
  edges = λ c a b d e. ground (arith, h c, same c, same (parent c));
  bridged = λ c a b d e. ground (arith, h c, h i, same c, same (parent i));
}

module _ {S X A : Type 0} (h : Interface S X) {Keeps : S → Type 0} (laws : Laws h A Keeps) where
  open laws use {at, rank, swap_Swapped}

  abbrev key : S → ℕ → ℕ
  key s c = rank (at s c)

  -- What is left to do before the last position is dropped: nothing, but for the entry of `i` there.
  pub record Isolated (s : S) (i n : ℕ) (t : S) : Type 0 where
    pub keeps : Keeps t
    pub size : h.len t ≡ suc n
    pub last : at t n ≡ at s i
    pub heap : IsHeap (λ c. rank (at t c)) n

  Swapped-FixInv :
      (s t : S) (i n : ℕ)
      → i < n
      → IsHeap (key s) (suc n)
      → Swapped (at s) i n (at t)
      → FixInv (key t) n i
  Swapped-FixInv s t i n p hp w =
      let same = Swapped-rank rank (at s) (at t) i n w in
      changed-FixInv (key s) (key t) n i p (λ c a b. hp c a (omega arith))
        λ c d b. ground (arith, same c)

  Isolated-Sifted :
      (s t u : S) (i n : ℕ)
      → h.len t ≡ suc n
      → Swapped (at s) i n (at t)
      → Sifted h laws n t u
      → Isolated s i n u
  Isolated-Sifted s t u i n size w z = record {
    keeps = z.keeps;
    size = z.size ∙ size;
    last = ground (arith, z.beyond n, w n);
    heap = z.heap;
  }

  -- Once an entry is pushed at the end, `push` makes a heap of the longer array.
  pub push_restores :
      (s t : S) (x : X)
      → h.push x s ≡ ok t
      → Keeps t
      → h.len t ≡ suc (h.len s)
      → ((c : ℕ) → c < h.len s → rank (at t c) ≡ rank (at s c))
      → IsHeap (λ c. rank (at s c)) (h.len s)
      → Returns (Sifted h laws (h.len t) t) (push h x s)
  unfolding push
  push_restores s t x pushed ks size same hp = rw pushed (
      up_restores h laws t (h.len t - 1) (h.len t) (omega arith) ks (record {
        inside = omega (arith, size);
        edges = λ c a b d. ground (arith, size, hp c, same c, same (parent c));
        bridged = omega (arith, size);
      }))

  pub fix_restores :
      (s : S) (i : ℕ)
      → Keeps s
      → FixInv (λ c. rank (at s c)) (h.len s) i
      → Returns (Sifted h laws (h.len s) s) (fix h s i)
  unfolding fix
  fix_restores s i ks v = settle_restores h laws s i (h.len s) (omega arith) ks v

  -- `remove` hands the array to the client's `pop` with the entry of `i` last and the rest a heap.
  pub remove_restores {κ} :
      {Q : X × S → Type κ} (s : S) (i n : ℕ)
      → h.len s ≡ suc n
      → i < suc n
      → Keeps s
      → IsHeap (λ c. rank (at s c)) (suc n)
      → ((t : S) → Isolated s i n t → Returns Q (h.pop t))
      → Returns Q (remove h s i)
  unfolding remove
  remove_restores s i n size p ks hp next =
      let eq : h.len s - 1 ≡ n = omega arith in
      rw eq (elim (Bool-cases (nat_beq n i)) [
        | inl e ↦ rw e (
            next s (record {
              keeps = ks;
              size = size;
              last = ap (at s) (ground arith);
              heap = λ c a b. hp c a (omega arith);
            }))
        | inr e ↦ rw e (
            Returns-then
              (Returns-then (swap_Swapped s i n ks (omega arith) (omega arith)) λ t w.
                Returns-weaken
                  (settle_restores h laws t i n (omega (arith, w.1)) w.0
                    (Swapped-FixInv s t i n (ground arith) hp w.2))
                  λ u z. Isolated-Sifted s t u i n (w.1 ∙ size) w.2 z)
              next)
      ])

  root_down_restores :
      (t : S) (n : ℕ)
      → n ≤ h.len t
      → Keeps t
      → (0 < n → FixInv (key t) n 0)
      → Returns (λ r. Sifted h laws n t r.0) (down h t 0 n)
  unfolding down
  root_down_restores t zero m ks v = returned (record {
    keeps = ks;
    size = refl;
    beyond = λ c q. refl;
    heap = λ c a b. absurd (omega arith);
  })
  root_down_restores t (suc n) m ks v =
      Returns-weaken (down_restores h laws t 0 (suc n) m ks (v (omega arith))) λ (u, moved) o.
        elim o [
          | inl (e, same, i) ↦ rw same (record {
            keeps = ks;
            size = refl;
            beyond = λ c q. refl;
            heap = λ c a b. i.edges c a b (omega arith);
          })
          | inr (e, z) ↦ z
        ]

  -- `pop` does the same with the entry at the root.
  pub pop_restores {κ} :
      {Q : X × S → Type κ} (s : S) (n : ℕ)
      → h.len s ≡ suc n
      → Keeps s
      → IsHeap (λ c. rank (at s c)) (suc n)
      → ((t : S) → Isolated s 0 n t → Returns Q (h.pop t))
      → Returns Q (pop h s)
  unfolding pop
  pop_restores s n size ks hp next =
      let eq : h.len s - 1 ≡ n = omega arith in
      rw eq (
        Returns-then (swap_Swapped s 0 n ks (omega arith) (omega arith)) λ t w.
          Returns-then
            (root_down_restores t n (omega (arith, w.1)) w.0 λ p. Swapped-FixInv s t 0 n p hp w.2)
            λ (u, moved) z. next u (Isolated-Sifted s t u 0 n (w.1 ∙ size) w.2 z))
