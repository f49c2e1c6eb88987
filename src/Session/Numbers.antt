-- ===== src/Session/Numbers.antt =====
-- std::to_string, std::stol and std::stoul, which the session service uses on bytes: base ten, blanks
-- and a sign first, and what follows the digits ignored. `none` is an exception.
use tateyama.Base.{
  ℕ, zero, suc, ◌+◌, ◌-◌, ◌*◌, ◌/◌, ◌%◌, ◌^◌, Bool, true, false, ◌&&◌, ◌||◌, leb, ltb, ◌==◌,
  if◌then◌else◌, Option, none, some, [], ◌∷◌, ◌++◌,
}
use tateyama.Base.Text.{Str}

abbrev pub is_digit : ℕ → Bool
is_digit c = leb 48 c && leb c 57

abbrev pub is_blank : ℕ → Bool
is_blank c = (c == 32) || (leb 9 c && leb c 13)

abbrev pub skip_blanks : Str → Str
skip_blanks [] = []
skip_blanks (c ∷ cs) = if is_blank c then skip_blanks cs else c ∷ cs

abbrev pub digits_from : ℕ → Str → ℕ
digits_from acc [] = acc
digits_from acc (c ∷ cs) = if is_digit c then digits_from (acc * 10 + (c - 48)) cs else acc

abbrev pub magnitude : Str → Option ℕ
magnitude [] = none
magnitude (c ∷ cs) = if is_digit c then some (digits_from 0 (c ∷ cs)) else none

-- whether there is a minus, and what follows the sign
abbrev pub split_sign : Str → Bool × Str
split_sign [] = (false, [])
split_sign (c ∷ cs) =
    if c == 45 then (true, cs) else if c == 43 then (false, cs) else (false, c ∷ cs)

-- the 64-bit pattern of the long
unfoldable pub stol : Str → Option ℕ
stol s =
    let (minus, rest) = split_sign (skip_blanks s) in
    elim (magnitude rest) [
      | none ↦ none
      | some m ↦
          (if minus
            then (if leb m (2 ^ 63) then some ((2 ^ 64 - m) % 2 ^ 64) else none)
            else (if ltb m (2 ^ 63) then some m else none))
    ]

-- a minus is taken modulo 2 ^ 64
unfoldable pub stoul : Str → Option ℕ
stoul s =
    let (minus, rest) = split_sign (skip_blanks s) in
    elim (magnitude rest) [
      | none ↦ none
      | some m ↦
          (if ltb m (2 ^ 64) then some (if minus then (2 ^ 64 - m) % 2 ^ 64 else m) else none)
    ]

-- the last `n` digits; twenty are enough for 64 bits
abbrev pub decimal : ℕ → ℕ → Str
decimal zero m = []
decimal (suc n) m =
    let rest = decimal n (m / 10) in if ltb m 10 then (48 + m) ∷ [] else rest ++ (48 + m % 10) ∷ []

unfoldable pub to_string : ℕ → Str
to_string m = decimal 20 m
