-- ===== src/Base/Partial.antt =====
-- What a call leaves if it returns.
use mathlib.Core.Path.{◌≡◌, refl}
use mathlib.Core.Bool.{Bool, true, false}
use mathlib.Core.Option.{Option, none, some}
use mathlib.Core.List.{List, [], ◌∷◌, Mem, mem-cons_self, mem-cons_of_mem}
use libvegas.Base.Tests.{if◌then◌else◌}
use libvegas.Base.Run.{
  Run, ok, panic, fatal, out_of_fuel, ◌>>=◌, or_panic, for_each, Safely, safely, endless, Returns,
  returned,
}

-- A returned value satisfies `P`; the call may also not return.
pub data Only {ℓ κ} {A : Type ℓ} (P : A → Type κ) : Run A → Type (ℓ ⊔ κ) where
  only : {a : A} → P a → Only P (ok a)
  by_panic : Only P panic
  by_exit : Only P fatal
  by_fuel : Only P out_of_fuel

pub or_panic-Only {ℓ} : {A : Type ℓ} (o : Option A) → Only (λ a. o ≡ some a) (or_panic o)
or_panic-Only none = by_panic
or_panic-Only (some a) = only refl

pub any-Only {ℓ} : {A : Type ℓ} (m : Run A) → Only (λ a. m ≡ ok a) m
any-Only (ok a) = only refl
any-Only panic = by_panic
any-Only fatal = by_exit
any-Only out_of_fuel = by_fuel

module _ {ℓ κ} {A : Type ℓ} {P : A → Type κ} where
  pub Only-then {ℓ' κ'} :
      {B : Type ℓ'} {Q : B → Type κ'} {m : Run A} {f : A → Run B}
      → Only P m
      → ((a : A) → P a → Only Q (f a))
      → Only Q (m >>= f)
  Only-then (only h) next = next _ h
  Only-then by_panic next = by_panic
  Only-then by_exit next = by_exit
  Only-then by_fuel next = by_fuel

  pub Only-weaken {κ'} : {Q : A → Type κ'} {m : Run A} → Only P m → ((a : A) → P a → Q a) → Only Q m
  Only-weaken (only h) up = only (up _ h)
  Only-weaken by_panic up = by_panic
  Only-weaken by_exit up = by_exit
  Only-weaken by_fuel up = by_fuel

  pub Only-split : {x y : Run A} (b : Bool) → Only P x → Only P y → Only P (if b then x else y)
  Only-split true h k = h
  Only-split false h k = k

  pub only_value : {a : A} → Only P (ok a) → P a
  only_value (only h) = h

pub Safely-Only {ℓ κ μ} :
    {A : Type ℓ} {P : A → Type κ} {Q : A → Type μ} {m : Run A}
    → Safely P m
    → Only Q m
    → Safely (λ a. P a × Q a) m
Safely-Only {P} {Q} (safely h) k = safely (h, only_value {P = Q} k)
Safely-Only endless k = endless

-- An invariant of the body is one of the loop.
pub for_each-Only {ℓ κ μ} :
    {A : Type ℓ} {S : Type κ} (P : S → Type μ) (f : A → S → Run S) (xs : List A)
    → ((a : A) (s : S) → Mem a xs → P s → Only P (f a s))
    → (s : S) → P s
    → Only P (for_each f xs s)
unfolding for_each
for_each-Only P f [] keep s h = only h
for_each-Only P f (x ∷ xs) keep s h =
    Only-then (keep x s mem-cons_self h)
      λ t k. for_each-Only P f xs (λ a u m. keep a u (mem-cons_of_mem x m)) t k

pub Returns-Only {ℓ κ} : {A : Type ℓ} {P : A → Type κ} {m : Run A} → Returns P m → Only P m
Returns-Only (returned h) = only h

-- Where a call returns for one reason, and leaves what it leaves for another.
pub Returns-Only_both {ℓ κ μ} :
    {A : Type ℓ} {P : A → Type κ} {Q : A → Type μ} {m : Run A}
    → Returns P m
    → Only Q m
    → Returns (λ a. P a × Q a) m
Returns-Only_both {P} {Q} (returned h) k = returned (h, only_value {P = Q} k)

pub safely_value {ℓ κ} : {A : Type ℓ} {P : A → Type κ} {a : A} → Safely P (ok a) → P a
safely_value (safely h) = h

-- The call returns a value that satisfies `P`, or it does not end, for the reason `R`: it neither
-- panics nor exits.
pub data Unless {ℓ κ μ} (R : Type μ) {A : Type ℓ} (P : A → Type κ) : Run A → Type (ℓ ⊔ κ ⊔ μ) where
  returns : {a : A} → P a → Unless R P (ok a)
  endless_by : R → Unless R P out_of_fuel

module _ {ℓ κ μ} {R : Type μ} {A : Type ℓ} {P : A → Type κ} where
  pub Unless-after {κ'} :
      {B : Type ℓ} {Q : B → Type κ'} {m : Run B} {f : B → Run A}
      → Returns Q m
      → ((b : B) → Q b → m ≡ ok b → Unless R P (f b))
      → Unless R P (m >>= f)
  Unless-after (returned h) next = next _ h refl

  pub Unless-then {κ' μ'} :
      {B : Type ℓ} {Q : B → Type κ'} {R' : Type μ'} {m : Run B} {f : B → Run A}
      → Unless R' Q m
      → (R' → R)
      → ((b : B) → Q b → Unless R P (f b))
      → Unless R P (m >>= f)
  Unless-then (returns h) why next = next _ h
  Unless-then (endless_by r) why next = endless_by (why r)

  pub Unless-weaken {κ' μ'} :
      {Q : A → Type κ'} {R' : Type μ'} {m : Run A}
      → Unless R P m
      → (R → R')
      → ((a : A) → P a → Q a)
      → Unless R' Q m
  Unless-weaken (returns h) why up = returns (up _ h)
  Unless-weaken (endless_by r) why up = endless_by (why r)

  pub Unless-Safely : {m : Run A} → Unless R P m → Safely P m
  Unless-Safely (returns h) = safely h
  Unless-Safely (endless_by r) = endless

pub Safely-Unless {ℓ κ} :
    {A : Type ℓ} {P : A → Type κ} {m : Run A} → Safely P m → Unless (m ≡ out_of_fuel) P m
Safely-Unless (safely h) = returns h
Safely-Unless endless = endless_by refl

pub Unless-Only {ℓ κ μ ν} :
    {R : Type ν} {A : Type ℓ} {P : A → Type κ} {Q : A → Type μ} {m : Run A}
    → Unless R P m
    → Only Q m
    → Unless R (λ a. P a × Q a) m
Unless-Only {P} {Q} (returns h) k = returns (h, only_value {P = Q} k)
Unless-Only (endless_by r) k = endless_by r
