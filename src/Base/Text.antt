-- ===== src/Base/Text.antt =====
-- Texts as the program prints and splits them: `fmt` for numbers, strings.Split and strings.Join at
-- commas.
use Prim.Native.Char.{Char, code}
use Prim.Native.String.{◌++◌ as append, String, [] as empty, ◌∷◌ as cons}
use libvegas.Base.Tests.{nat_beq, ltb, if◌then◌else◌}
use Prim.Native.Nat.{ℕ, zero, suc, ◌/◌, ◌%◌}
use mathlib.Core.List.{List, [], ◌∷◌}

abbrev pub digit : ℕ → String
digit d =
    if nat_beq d 0
    then "0"
    else if nat_beq d 1
    then "1"
    else if nat_beq d 2
    then "2"
    else if nat_beq d 3
    then "3"
    else if nat_beq d 4
    then "4"
    else if nat_beq d 5
    then "5"
    else if nat_beq d 6
    then "6"
    else if nat_beq d 7
    then "7"
    else if nat_beq d 8
    then "8"
    else "9"

-- the last `width` decimal digits, without zeros in front
unfoldable pub digits : ℕ → ℕ → String
digits zero n = ""
digits (suc width) n =
    let front = digits width (n / 10) in if ltb n 10 then digit n else append front (digit (n % 10))

-- fmt.Sprintf("%d", n), for n below 10 ^ 20
abbrev pub decimal : ℕ → String
decimal n = digits 20 n

-- One more character in front; `c` ends the first word if it is the separator.
abbrev cut : ℕ → Char → List String → List String
cut separator c [] = []
cut separator c (w ∷ ws) = if nat_beq (code c) separator then "" ∷ w ∷ ws else cons c w ∷ ws

unfoldable pub split_at : ℕ → String → List String
split_at separator empty = "" ∷ []
split_at separator (cons c rest) = cut separator c (split_at separator rest)

-- strings.Split(s, ",")
unfoldable pub split : String → List String
unfolding split_at
split s = split_at b',' s

-- strings.Join(words, ",")
unfoldable pub join : List String → String
join [] = ""
join (w ∷ ws) = elim ws [ [] ↦ w | v ∷ vs ↦ append w (append "," (join ws)) ]
