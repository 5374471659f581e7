-- ===== src/Base/Run.antt =====
-- How a call ends, and the rules for calls that return.
use mathlib.Core.Path.{◌≡◌, refl}
use mathlib.Core.Bool.{Bool, true, false}
use mathlib.Core.Option.{Option, none, some}
use mathlib.Core.List.{List, [], ◌∷◌, Mem, mem-cons_self, mem-cons_of_mem}
use libvegas.Base.Tests.{if◌then◌else◌}

-- A returned value, a run-time panic, the exit of the process by `logger.Fatal`, or the end of the
-- model's fuel.
pub data Run {ℓ} (A : Type ℓ) : Type ℓ where
  ok : A → Run A
  panic fatal out_of_fuel : Run A

infixl 5 ◌>>=◌
abbrev pub ◌>>=◌ {ℓ κ} : {A : Type ℓ} {B : Type κ} → Run A → (A → Run B) → Run B
ok a >>= f = f a
panic >>= f = panic
fatal >>= f = fatal
out_of_fuel >>= f = out_of_fuel

-- Reading what is not there panics.
abbrev pub or_panic {ℓ} : {A : Type ℓ} → Option A → Run A
or_panic (some a) = ok a
or_panic none = panic

-- `for _, x := range xs`, where the body may panic.
unfoldable pub for_each {ℓ κ} : {A : Type ℓ} {S : Type κ} → (A → S → Run S) → List A → S → Run S
for_each f [] s = ok s
for_each f (x ∷ xs) s = f x s >>= for_each f xs

-- The call returns a value that satisfies `P`.
pub data Returns {ℓ κ} {A : Type ℓ} (P : A → Type κ) : Run A → Type (ℓ ⊔ κ) where
  returned : {a : A} → P a → Returns P (ok a)

module _ {ℓ κ} {A : Type ℓ} {P : A → Type κ} where
  pub Returns-then {ℓ' κ'} :
      {B : Type ℓ'} {Q : B → Type κ'} {m : Run A} {f : A → Run B}
      → Returns P m
      → ((a : A) → P a → Returns Q (f a))
      → Returns Q (m >>= f)
  Returns-then (returned h) next = next _ h

  pub Returns-weaken {κ'} :
      {Q : A → Type κ'} {m : Run A} → Returns P m → ((a : A) → P a → Q a) → Returns Q m
  Returns-weaken (returned h) up = returned (up _ h)

  pub Returns-split :
      {x y : Run A} (b : Bool)
      → (b ≡ true → Returns P x)
      → (b ≡ false → Returns P y)
      → Returns P (if b then x else y)
  Returns-split true l r = l refl
  Returns-split false l r = r refl

  pub Returns-value : {m : Run A} → Returns P m → (a : A) × (m ≡ ok a) × P a
  Returns-value (returned h) = (_, refl, h)

  pub returned_at : {m : Run A} {a : A} → m ≡ ok a → P a → Returns P m
  returned_at e h = rw e (returned h)

pub returned_value {ℓ κ} : {A : Type ℓ} {P : A → Type κ} {a : A} → Returns P (ok a) → P a
returned_value (returned h) = h

pub Returns-both {ℓ κ μ} :
    {A : Type ℓ} {P : A → Type κ} {Q : A → Type μ} {m : Run A}
    → Returns P m
    → Returns Q m
    → Returns (λ a. P a × Q a) m
Returns-both {P} {Q} (returned h) k = returned (h, returned_value {P = Q} k)

-- An invariant of the body is one of the loop.
pub for_each_inv {ℓ κ μ} :
    {A : Type ℓ} {S : Type κ} (P : S → Type μ) (f : A → S → Run S) (xs : List A)
    → ((a : A) (s : S) → Mem a xs → P s → Returns P (f a s))
    → (s : S) → P s
    → Returns P (for_each f xs s)
unfolding for_each
for_each_inv P f [] keep s h = returned h
for_each_inv P f (x ∷ xs) keep s h =
    Returns-then (keep x s mem-cons_self h)
      λ t k. for_each_inv P f xs (λ a u m. keep a u (mem-cons_of_mem x m)) t k

-- The call returns a value that satisfies `P`, or it does not end: it neither panics nor exits.
pub data Safely {ℓ κ} {A : Type ℓ} (P : A → Type κ) : Run A → Type (ℓ ⊔ κ) where
  safely : {a : A} → P a → Safely P (ok a)
  endless : Safely P out_of_fuel

module _ {ℓ κ} {A : Type ℓ} {P : A → Type κ} where
  pub Returns-Safely : {m : Run A} → Returns P m → Safely P m
  Returns-Safely (returned h) = safely h

  pub Safely-then {ℓ' κ'} :
      {B : Type ℓ'} {Q : B → Type κ'} {m : Run A} {f : A → Run B}
      → Safely P m
      → ((a : A) → P a → Safely Q (f a))
      → Safely Q (m >>= f)
  Safely-then (safely h) next = next _ h
  Safely-then endless next = endless

  pub Safely-weaken {κ'} :
      {Q : A → Type κ'} {m : Run A} → Safely P m → ((a : A) → P a → Q a) → Safely Q m
  Safely-weaken (safely h) up = safely (up _ h)
  Safely-weaken endless up = endless

  pub Safely-split :
      {x y : Run A} (b : Bool)
      → (b ≡ true → Safely P x)
      → (b ≡ false → Safely P y)
      → Safely P (if b then x else y)
  Safely-split true l r = l refl
  Safely-split false l r = r refl
