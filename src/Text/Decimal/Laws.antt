-- ===== src/Text/Decimal/Laws.antt =====
-- About reading a printed number.
use glyff.Prelude.{
  ℕ, zero, suc, ◌+◌, ◌-◌, ◌*◌, ◌/◌, ◌%◌, ◌<◌, Bool, true, false, [], ◌∷◌, ◌++◌, ltb, nat_beq,
  if◌then◌else◌, Text, ◌≡◌, refl, arith, some, Bool-cases, inl, inr, ap, ◌∙◌,
}
use glyff.Json.{pos}
use glyff.Text.Quote.{between}
use glyff.Text.Quote.Laws.{all_of, all_of-append}
use glyff.Text.Decimal.{
  digits_of, decimal, read_digits, is_space, strip_left, strip_right, read_signed, int_of, as_int,
}

abbrev pub is_digit : ℕ → Bool
is_digit = between b'0' b'9'

read_digits-snoc :
    (n : ℕ) (after_digit : Bool) (cs : Text) (d m : ℕ)
    → is_digit d ≡ true
    → read_digits n after_digit cs ≡ some m
    → read_digits n after_digit (cs ++ d ∷ []) ≡ some (m * 10 + (d - b'0'))
unfolding read_digits
read_digits-snoc n true [] d m h e = rw h (ground arith)
read_digits-snoc n false [] d m h e = ground arith
read_digits-snoc n after_digit (c ∷ cs) d m h e =
    ground (
      arith,
      read_digits-snoc (if is_digit c then n * 10 + (c - b'0') else n) (is_digit c) cs d m h,
    )

read-digits_of : (fuel n : ℕ) → n < fuel → read_digits 0 false (digits_of fuel n) ≡ some n
unfolding digits_of read_digits
read-digits_of zero n h = absurd (omega arith)
read-digits_of (suc fuel) n h = elim (Bool-cases (ltb n 10)) [
  | inl small ↦ rw small (ground arith)
  | inr large ↦ rw large (
      read_digits-snoc 0 false (digits_of fuel (n / 10)) (b'0' + n % 10) (n / 10) (ground arith)
        (read-digits_of fuel (n / 10) (ground arith))
      ∙ ap some (omega arith))
]

digits_of-digits : (fuel n : ℕ) → all_of is_digit (digits_of fuel n) ≡ true
unfolding digits_of
digits_of-digits zero n = refl
digits_of-digits (suc fuel) n = elim (Bool-cases (ltb n 10)) [
  | inl small ↦ rw small (ground arith)
  | inr large ↦ rw large (
      ground (
        arith,
        all_of-append is_digit (digits_of fuel (n / 10)) ((b'0' + n % 10) ∷ []),
        digits_of-digits fuel (n / 10),
      ))
]

pub decimal-digits : (n : ℕ) → all_of is_digit (decimal n) ≡ true
unfolding decimal
decimal-digits n = digits_of-digits (suc n) n

strip_right-digits : (cs : Text) → all_of is_digit cs ≡ true → strip_right cs ≡ cs
strip_right-digits [] h = refl
strip_right-digits (c ∷ cs) h = rw (strip_right-digits cs (ground arith)) (kept cs)
  where
    kept :
        (ds : Text)
        → (elim ds [ [] ↦ (if is_space c then [] else c ∷ []) | e ∷ es ↦ c ∷ e ∷ es ]) ≡ c ∷ ds
    kept [] = ground arith
    kept (d ∷ ds) = refl

read_signed-digits :
    (cs : Text) (n : ℕ)
    → all_of is_digit cs ≡ true
    → read_digits 0 false cs ≡ some n
    → read_signed (strip_left cs) ≡ some (pos n)
read_signed-digits [] n h e = absurd (unfold read_digits in ground (arith, e))
read_signed-digits (c ∷ cs) n h e =
    let no_space : is_space c ≡ false = ground arith in
    let no_minus : nat_beq c b'-' ≡ false = ground arith in
    let no_plus : nat_beq c b'+' ≡ false = ground arith in
    rw no_space (rw no_minus (rw no_plus (ap as_int e)))

-- Reading the decimal spelling of a natural number gives the number.
pub int-decimal : (n : ℕ) → int_of (decimal n) ≡ some (pos n)
unfolding int_of decimal
int-decimal n = rw (strip_right-digits (digits_of (suc n) n) (digits_of-digits (suc n) n)) (
    read_signed-digits (digits_of (suc n) n) n (digits_of-digits (suc n) n)
      (read-digits_of (suc n) n (omega arith)))
