-- ===== src/Text/Utf8.antt =====
-- str.encode("utf-8") and bytes.decode("utf-8", "replace").
use glyff.Prelude.{
  ℕ, ◌+◌, ◌-◌, ◌*◌, ◌/◌, ◌%◌, Bool, true, ◌&&◌, ◌||◌, [], ◌∷◌, ◌++◌, ltb, leb, nat_beq,
  if◌then◌else◌, Text, Bytes, ◌≡◌, arith,
}
use glyff.Result.{Result, ok, err, ◌>>=◌, value_error}

-- A code point that UTF-8 encodes: no surrogate, and none past the last one.
abbrev pub is_scalar : ℕ → Bool
is_scalar c = ltb c 0xd800 || (leb 0xe000 c && ltb c 0x110000)

unfoldable pub encode_char : ℕ → Bytes
encode_char c =
    if ltb c 0x80
    then c ∷ []
    else if ltb c 0x800
    then (0xc0 + c / 64) ∷ (0x80 + c % 64) ∷ []
    else if ltb c 0x10000
    then (0xe0 + c / 4096) ∷ (0x80 + (c / 64) % 64) ∷ (0x80 + c % 64) ∷ []
    else (0xf0 + c / 262144)
      ∷ (0x80 + (c / 4096) % 64)
      ∷ (0x80 + (c / 64) % 64)
      ∷ (0x80 + c % 64)
      ∷ []

-- UnicodeEncodeError is a ValueError.
unfoldable pub encode_utf8 : Text → Result Bytes
unfolding encode_char
encode_utf8 [] = ok []
encode_utf8 (c ∷ cs) =
    encode_utf8 cs >>= λ bs. if is_scalar c then ok (encode_char c ++ bs) else err value_error

-- Between characters, or inside one: bytes to come, value so far, bounds of the next byte.
pub data Decoder : Type 0 where
  idle : Decoder
  inside : ℕ → ℕ → ℕ → ℕ → Decoder

abbrev pub replacement : ℕ
replacement = 0xfffd

unfoldable pub lead : ℕ → Text × Decoder
lead b =
    if ltb b 0x80
    then (b ∷ [], idle)
    else if leb 0xc2 b && ltb b 0xe0
    then ([], inside 1 (b - 0xc0) 0x80 0xbf)
    else if leb 0xe0 b && ltb b 0xf0
    then (
      [],
      inside 2 (b - 0xe0) (if nat_beq b 0xe0 then 0xa0 else 0x80)
          (if nat_beq b 0xed then 0x9f else 0xbf),
    )
    else if leb 0xf0 b && ltb b 0xf5
    then (
      [],
      inside 3 (b - 0xf0) (if nat_beq b 0xf0 then 0x90 else 0x80)
          (if nat_beq b 0xf4 then 0x8f else 0xbf),
    )
    else (replacement ∷ [], idle)

abbrev pub after_replacement : Text × Decoder → Text × Decoder
after_replacement r = (replacement ∷ r.0, r.1)

unfoldable pub step : Decoder → ℕ → Text × Decoder
unfolding lead
step idle b = lead b
step (inside n value lo hi) b =
    if leb lo b && leb b hi
    then (if leb n 1
        then ((value * 64 + (b - 0x80)) ∷ [], idle)
        else ([], inside (n - 1) (value * 64 + (b - 0x80)) 0x80 0xbf))
    else after_replacement (lead b)

unfoldable pub decode_from : Decoder → Bytes → Text
unfolding step
decode_from idle [] = []
decode_from (inside _ _ _ _) [] = replacement ∷ []
decode_from d (b ∷ bs) = (step d b).0 ++ decode_from (step d b).1 bs

abbrev pub decode_utf8 : Bytes → Text
decode_utf8 = decode_from idle

-- One encoded character is decoded, whatever follows.
pub decode-encode_char :
    (c : ℕ) (bs : Bytes)
    → is_scalar c ≡ true
    → decode_utf8 (encode_char c ++ bs) ≡ c ∷ decode_utf8 bs
unfolding decode_from encode_char
decode-encode_char c bs h = ground arith
