-- ===== src/Text/Decimal.antt =====
-- str(n) of a natural number, and int(spelling).
pub mod Laws
use glyff.Prelude.{
  ℕ, zero, suc, ◌+◌, ◌-◌, ◌*◌, ◌/◌, ◌%◌, ◌<◌, Bool, true, false, ◌&&◌, ◌||◌, List, [], ◌∷◌, ◌++◌,
  ltb, leb, nat_beq, if◌then◌else◌, Text, ◌≡◌, refl, arith, Option, none, some,
}
use glyff.Json.{ℤ, pos, negsuc}
use glyff.Text.Quote.{between}

-- With as much fuel as the number has digits.
unfoldable pub digits_of : ℕ → ℕ → Text
digits_of zero n = []
digits_of (suc fuel) n =
    let more = digits_of fuel (n / 10) ++ (b'0' + n % 10) ∷ [] in
    if ltb n 10 then (b'0' + n) ∷ [] else more

unfoldable pub decimal : ℕ → Text
unfolding digits_of
decimal n = digits_of (suc n) n

-- Digits, and single underscores between them. `after_digit` says what the last character was.
unfoldable pub read_digits : ℕ → Bool → Text → Option ℕ
read_digits n after_digit [] = if after_digit then some n else none
read_digits n after_digit (c ∷ cs) =
    let is_digit = between b'0' b'9' c in
    let rest = read_digits (if is_digit then n * 10 + (c - b'0') else n) is_digit cs in
    if is_digit || (nat_beq c b'_' && after_digit) then rest else none

abbrev pub is_space : ℕ → Bool
is_space c = nat_beq c b' ' || between 9 13 c || between 28 31 c

abbrev pub strip_left : Text → Text
strip_left [] = []
strip_left (c ∷ cs) = if is_space c then strip_left cs else c ∷ cs

abbrev pub strip_right : Text → Text
strip_right [] = []
strip_right (c ∷ cs) = elim (strip_right cs) [
  | [] ↦ (if is_space c then [] else c ∷ [])
  | d ∷ ds ↦ c ∷ d ∷ ds
]

abbrev pub negated : Option ℕ → Option ℤ
negated none = none
negated (some zero) = some (pos 0)
negated (some (suc n)) = some (negsuc n)

abbrev pub as_int : Option ℕ → Option ℤ
as_int none = none
as_int (some n) = some (pos n)

abbrev pub read_signed : Text → Option ℤ
read_signed [] = none
read_signed (c ∷ cs) =
    if nat_beq c b'-'
    then negated (read_digits 0 false cs)
    else if nat_beq c b'+'
    then as_int (read_digits 0 false cs)
    else as_int (read_digits 0 false (c ∷ cs))

-- `int` also reads the digits and spaces of other scripts; the spelling of no number has any.
unfoldable pub int_of : Text → Option ℤ
unfolding read_digits
int_of spelling = read_signed (strip_left (strip_right spelling))
