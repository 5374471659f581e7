-- ===== src/Heap/Order.antt =====
-- The heap order on positions, and what a client of the algorithms has to supply.
use libvegas.Base.{ℕ, zero, suc, ◌+◌, ◌≤◌, ◌<◌, ◌≡◌, ◌≢◌, ltb, nat_beq, if◌then◌else◌, arith}
use libvegas.Base.Run.{ok, Returns}
use libvegas.Heap.{Interface, parent}

-- Every edge of the tree on the first `n` positions is in order.
abbrev pub IsHeap : (ℕ → ℕ) → ℕ → Type 0
IsHeap key n = (c : ℕ) → 0 < c → c < n → key (parent c) ≤ key c

-- The edges past `i`, from its parent to its children, are in order.
abbrev pub IsBridged : (ℕ → ℕ) → ℕ → ℕ → Type 0
IsBridged key n i = (c : ℕ) → 0 < c → c < n → parent c ≡ i → 0 < i → key (parent i) ≤ key c

-- Only the edge above `i` may be out of order.
pub record UpInv (key : ℕ → ℕ) (n i : ℕ) : Type 0 where
  pub inside : i < n
  pub edges : (c : ℕ) → 0 < c → c < n → c ≢ i → key (parent c) ≤ key c
  pub bridged : IsBridged key n i

-- Only the edges above and below `i` may be out of order.
pub record FixInv (key : ℕ → ℕ) (n i : ℕ) : Type 0 where
  pub inside : i < n
  pub edges : (c : ℕ) → 0 < c → c < n → c ≢ i → parent c ≢ i → key (parent c) ≤ key c
  pub bridged : IsBridged key n i

-- `t` holds what `s` holds with positions `i` and `j` exchanged.
abbrev pub Swapped {ℓ} : {A : Type ℓ} → (ℕ → A) → ℕ → ℕ → (ℕ → A) → Type ℓ
Swapped s i j t = (c : ℕ) → t c ≡ (if nat_beq c j then s i else if nat_beq c i then s j else s c)

pub Swapped-rank :
    {A : Type 0} (rank : A → ℕ) (s t : ℕ → A) (i j : ℕ)
    → Swapped s i j t
    → Swapped (λ c. rank (s c)) i j (λ c. rank (t c))
Swapped-rank rank s t i j w c = ground (arith, w c)

-- `at` reads a position and `rank` orders what is read; `Keeps` is an invariant of the client that
-- an exchange of two positions preserves.
pub record Laws {S X : Type 0} (h : Interface S X) (A : Type 0) (Keeps : S → Type 0) : Type 0 where
  pub at : S → ℕ → A
  pub rank : A → ℕ
  pub less_rank :
      (s : S) (i j : ℕ)
      → Keeps s
      → i < h.len s
      → j < h.len s
      → h.less s i j ≡ ok (ltb (rank (at s i)) (rank (at s j)))
  pub swap_Swapped :
      (s : S) (i j : ℕ)
      → Keeps s
      → i < h.len s
      → j < h.len s
      → Returns (λ t. Keeps t × (h.len t ≡ h.len s) × Swapped (at s) i j (at t)) (h.swap s i j)

least_below : (k : ℕ) (key : ℕ → ℕ) (n i : ℕ) → IsHeap key n → i < k → i < n → key 0 ≤ key i
least_below zero key n i h f p = absurd (omega arith)
least_below (suc k) key n i h f p = ground (arith, h i, least_below k key n (parent i) h)

-- The root of a heap is least.
pub root_least : (key : ℕ → ℕ) (n i : ℕ) → IsHeap key n → i < n → key 0 ≤ key i
root_least key n i h p = least_below (i + 1) key n i h (omega arith) p
