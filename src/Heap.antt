-- ===== src/Heap.antt =====
-- The algorithms of Go's container/heap over its interface, as primitives/priority_queue.go uses
-- them. An index stays below twice the length, so `int` does not overflow in `down`.
pub mod Order
pub mod Up
pub mod Down
pub mod Calls
use libvegas.Base.{ℕ, zero, suc, ◌+◌, ◌-◌, ◌*◌, ◌/◌, Bool, ltb, leb, nat_beq, if◌then◌else◌}
use libvegas.Base.Run.{Run, ok, out_of_fuel, ◌>>=◌}

-- heap.Interface: `less` and `swap` panic at an index out of range.
pub record Interface (S X : Type 0) : Type 0 where
  pub len : S → ℕ
  pub less : S → ℕ → ℕ → Run Bool
  pub swap : S → ℕ → ℕ → Run S
  pub push : X → S → Run S
  pub pop : S → Run (X × S)

-- (j - 1) / 2, which Go rounds to 0 at 0
abbrev pub parent : ℕ → ℕ
parent j = (j - 1) / 2

module _ {S X : Type 0} (h : Interface S X) where
  up_loop : ℕ → S → ℕ → Run S
  up_loop zero s j = out_of_fuel
  up_loop (suc k) s j =
      let rise = h.swap s (parent j) j >>= λ t. up_loop k t (parent j) in
      let step = h.less s j (parent j) >>= λ below. if below then rise else ok s in
      if nat_beq (parent j) j then ok s else step

  unfoldable pub up : S → ℕ → Run S
  unfolding up_loop
  up s j = up_loop (suc j) s j

  -- the child of the two that is not greater; `&&` reads the right one only if it is there
  smaller_child : S → ℕ → ℕ → Run ℕ
  smaller_child s left n =
      let right = left + 1 in
      if ltb right n
      then (h.less s right left >>= λ smaller. ok (if smaller then right else left))
      else ok left

  down_loop : ℕ → S → ℕ → ℕ → Run (S × ℕ)
  down_loop zero s i n = out_of_fuel
  down_loop (suc k) s i n =
      let step : Run (S × ℕ) = do
        j ← smaller_child s (2 * i + 1) n
        below ← h.less s j i
        let sink = h.swap s i j >>= λ t. down_loop k t j n
        if below then sink else ok (s, i)
      in if leb n (2 * i + 1) then ok (s, i) else step

  -- the flag says whether the entry moved
  unfoldable pub down : S → ℕ → ℕ → Run (S × Bool)
  unfolding down_loop smaller_child
  down s i n = down_loop (suc n) s i n >>= λ (t, last). ok (t, ltb i last)

  -- `if !down(h, i, n) { up(h, i) }`
  unfoldable pub settle : S → ℕ → ℕ → Run S
  unfolding up down
  settle s i n = down s i n >>= λ (t, moved). if moved then ok t else up t i

  unfoldable pub push : X → S → Run S
  unfolding up
  push x s = do t ← h.push x s; up t (h.len t - 1)

  unfoldable pub pop : S → Run (X × S)
  unfolding down
  pop s = do let n = h.len s - 1; t ← h.swap s 0 n; (u, moved) ← down t 0 n; h.pop u

  unfoldable pub fix : S → ℕ → Run S
  unfolding settle
  fix s i = settle s i (h.len s)

  unfoldable pub remove : S → ℕ → Run (X × S)
  unfolding settle
  remove s i = do
    let n = h.len s - 1
    let moved = h.swap s i n >>= λ t. settle t i n
    t ← if nat_beq n i then ok s else moved
    h.pop t
