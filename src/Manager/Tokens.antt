-- ===== src/Manager/Tokens.antt =====
-- The fencing token: its text is ordered as the assignment id that it prints.
use Prim.Native.Nat.{Ordering, compare as compare_ℕ}
use Prim.Native.Char.{Char, code}
use Prim.Native.String.{[] as empty, ◌∷◌ as cons, ◌++◌ as append, compare, then}
use Prim.Native.String.compare as compare_clauses
use Prim.Native.String.append as append_clauses
use libvegas.Base.{ℕ, zero, suc, ◌+◌, ◌/◌, ◌%◌, ◌^◌, ◌<◌, ◌≡◌, refl, sym, ◌∙◌, ap, String, arith}
use libvegas.Base.Text.{digit}
use libvegas.Manager.Checkpoint.{zero_padded}

-- Texts of one length.
data Even : String → String → Type 0 where
  both_empty : Even empty empty
  both_longer : (c d : Char) (s t : String) → Even s t → Even (cons c s) (cons d t)

then_assoc : (a b c : Ordering) → then (then a b) c ≡ then a (then b c)
then_assoc Ordering.lt b c = refl
then_assoc Ordering.eq b c = refl
then_assoc Ordering.gt b c = refl

then_eq : (o : Ordering) → then o Ordering.eq ≡ o
then_eq Ordering.lt = refl
then_eq Ordering.eq = refl
then_eq Ordering.gt = refl

compare-append :
    (s t u v : String)
    → Even s t
    → compare (append s u) (append t v) ≡ then (compare s t) (compare u v)
compare-append s t u v both_empty = rw (append_clauses.nil u, append_clauses.nil v) refl
compare-append s t u v (both_longer c d s' t' h) =
    rw (append_clauses.cons c s' u, append_clauses.cons d t' v)
      (compare_clauses.cons-cons c d (append s' u) (append t' v)
        ∙ ap (then (compare_ℕ (code c) (code d))) (compare-append s' t' u v h)
        ∙ sym (then_assoc (compare_ℕ (code c) (code d)) (compare s' t') (compare u v))
        ∙ ap (λ o. then o (compare u v)) (sym (compare_clauses.cons-cons c d s' t')))

Even-append : (s t u v : String) → Even s t → Even u v → Even (append s u) (append t v)
Even-append s t u v both_empty k = rw (append_clauses.nil u, append_clauses.nil v) k
Even-append s t u v (both_longer c d s' t' h) k =
    rw (append_clauses.cons c s' u, append_clauses.cons d t' v)
      (both_longer c d (append s' u) (append t' v) (Even-append s' t' u v h k))

-- A digit is one character, and its number is that of "0" and the digit.
digit_char : (d : ℕ) → d < 10 → (c : Char) × (digit d ≡ cons c empty) × (code c ≡ 48 + d)
digit_char zero h = ("0", refl, refl)
digit_char (suc zero) h = ("1", refl, refl)
digit_char (suc (suc zero)) h = ("2", refl, refl)
digit_char (suc (suc (suc zero))) h = ("3", refl, refl)
digit_char (suc (suc (suc (suc zero)))) h = ("4", refl, refl)
digit_char (suc (suc (suc (suc (suc zero))))) h = ("5", refl, refl)
digit_char (suc (suc (suc (suc (suc (suc zero)))))) h = ("6", refl, refl)
digit_char (suc (suc (suc (suc (suc (suc (suc zero))))))) h = ("7", refl, refl)
digit_char (suc (suc (suc (suc (suc (suc (suc (suc zero)))))))) h = ("8", refl, refl)
digit_char (suc (suc (suc (suc (suc (suc (suc (suc (suc zero))))))))) h = ("9", refl, refl)
digit_char (suc (suc (suc (suc (suc (suc (suc (suc (suc (suc d)))))))))) h = absurd (omega arith)

compare_shift : (a b : ℕ) → compare_ℕ (48 + a) (48 + b) ≡ compare_ℕ a b
compare_shift a b = ground arith

compare-digit :
    (a b : ℕ)
    → a < 10
    → b < 10
    → (compare (digit a) (digit b) ≡ compare_ℕ a b) × Even (digit a) (digit b)
compare-digit a b ha hb =
    let (c, e, n) = digit_char a ha in
    let (d, f, m) = digit_char b hb in
    (
      rw (e, f)
          (compare_clauses.cons-cons c d empty empty
            ∙ rw (compare_clauses.nil-nil, n, m)
                (then_eq (compare_ℕ (48 + a) (48 + b)) ∙ compare_shift a b)),
      rw (e, f) (both_longer c d empty empty both_empty),
    )

Even-zero_padded : (w a b : ℕ) → Even (zero_padded w a) (zero_padded w b)
unfolding zero_padded
Even-zero_padded zero a b = both_empty
Even-zero_padded (suc w) a b =
    Even-append _ _ _ _ (Even-zero_padded w (a / 10) (b / 10))
      (compare-digit (a % 10) (b % 10) (omega arith) (omega arith)).1

then_digits :
    (a b : ℕ) → then (compare_ℕ (a / 10) (b / 10)) (compare_ℕ (a % 10) (b % 10)) ≡ compare_ℕ a b
then_digits a b = ground arith

-- For two numbers of at most `w` digits, the texts of `w` digits that are printed for them, with
-- leading zeros, compare as the numbers do.
pub compare-zero_padded :
    (w a b : ℕ)
    → a < 10 ^ w
    → b < 10 ^ w
    → compare (zero_padded w a) (zero_padded w b) ≡ compare_ℕ a b
unfolding zero_padded
compare-zero_padded zero a b ha hb = ground arith
compare-zero_padded (suc w) a b ha hb =
    compare-append _ _ _ _ (Even-zero_padded w (a / 10) (b / 10))
    ∙ ap (λ o. then o (compare (digit (a % 10)) (digit (b % 10))))
        (compare-zero_padded w (a / 10) (b / 10) (omega arith) (omega arith))
    ∙ ap (then (compare_ℕ (a / 10) (b / 10)))
        (compare-digit (a % 10) (b % 10) (omega arith) (omega arith)).0
    ∙ then_digits a b
