-- ===== src/Text/Quote.antt =====
-- urllib.parse.quote(value, safe="") and unquote(encoded).
pub mod Laws
use glyff.Prelude.{
  ℕ, zero, suc, ◌+◌, ◌-◌, ◌*◌, ◌/◌, ◌%◌, ◌<◌, Bool, true, false, ◌&&◌, ◌||◌, List, [], ◌∷◌, ◌++◌,
  ltb, leb, nat_beq, if◌then◌else◌, Text, Bytes, ◌≡◌, refl, arith, Option, none, some,
}
use glyff.Result.{Result, ok, err, ◌>>=◌}
use glyff.Text.Utf8.{encode_utf8, decode_utf8}

abbrev pub between : ℕ → ℕ → ℕ → Bool
between lo hi c = leb lo c && leb c hi

-- letters, digits and `_.-~`
abbrev pub is_unreserved : ℕ → Bool
is_unreserved c =
    between b'a' b'z' c
    || between b'A' b'Z' c
    || between b'0' b'9' c
    || nat_beq c b'_'
    || nat_beq c b'.'
    || nat_beq c b'-'
    || nat_beq c b'~'

abbrev pub hex_digit : ℕ → ℕ
hex_digit n = if ltb n 10 then b'0' + n else b'A' + (n - 10)

unfoldable pub quote_byte : ℕ → Text
quote_byte b =
    if is_unreserved b then b ∷ [] else b'%' ∷ hex_digit (b / 16) ∷ hex_digit (b % 16) ∷ []

unfoldable pub quote_bytes : Bytes → Text
unfolding quote_byte
quote_bytes [] = []
quote_bytes (b ∷ bs) = quote_byte b ++ quote_bytes bs

unfoldable pub quote : Text → Result Text
unfolding quote_bytes
quote value = encode_utf8 value >>= λ bs. ok (quote_bytes bs)

abbrev pub hex_value : ℕ → Option ℕ
hex_value c =
    if between b'0' b'9' c
    then some (c - b'0')
    else if between b'A' b'F' c
    then some (c - b'A' + 10)
    else if between b'a' b'f' c
    then some (c - b'a' + 10)
    else none

-- What stands behind a `%`, if it is the hex of a byte.
abbrev pub hex_pair : Option ℕ → Option ℕ → Option ℕ
hex_pair (some h) (some l) = some (h * 16 + l)
hex_pair _ _ = none

-- unquote_to_bytes: a `%` that no hex follows stays
unfoldable pub unquote_to_bytes : Text → Bytes
unquote_to_bytes [] = []
unquote_to_bytes (c ∷ []) = c ∷ []
unquote_to_bytes (c ∷ h ∷ []) = c ∷ unquote_to_bytes (h ∷ [])
unquote_to_bytes (c ∷ h ∷ l ∷ cs) =
    let plain = c ∷ unquote_to_bytes (h ∷ l ∷ cs) in
    let rest = unquote_to_bytes cs in
    if nat_beq c b'%'
    then elim (hex_pair (hex_value h) (hex_value l)) [ some b ↦ b ∷ rest | none ↦ plain ]
    else plain

-- The text, run of ASCII by run: each is unquoted and decoded, and other characters stay.
unfoldable pub unquote_runs : Text → Text → Text
unquote_runs run [] = decode_utf8 (unquote_to_bytes run)
unquote_runs run (c ∷ cs) =
    if ltb c 0x80
    then unquote_runs (run ++ c ∷ []) cs
    else decode_utf8 (unquote_to_bytes run) ++ c ∷ unquote_runs [] cs

unfoldable pub unquote : Text → Text
unfolding unquote_runs unquote_to_bytes
unquote encoded = unquote_runs [] encoded
