-- ===== src/Text/Quote/Laws.antt =====
-- About unquoting a quoted text.
use glyff.Prelude.{
  ℕ, ◌+◌, ◌*◌, ◌/◌, ◌%◌, ◌<◌, Bool, true, false, ◌&&◌, ◌||◌, List, [], ◌∷◌, ◌++◌, ltb, nat_beq,
  Text, Bytes, ◌≡◌, refl, arith, some, Bool-cases, inl, inr, ap, ◌∙◌,
}
use mathlib.Core.List.{append-nil, append_assoc}
use glyff.Result.{ok, Result-cases}
use glyff.Text.Utf8.{
  encode_utf8, decode_utf8, encode_char, decode-encode_char, is_scalar, decode_from,
}
use glyff.Text.Quote.{
  is_unreserved, hex_digit, hex_value, quote_byte, quote_bytes, quote, unquote_to_bytes,
  unquote_runs, unquote,
}

pub decode-encode_utf8 : (cs : Text) (bs : Bytes) → encode_utf8 cs ≡ ok bs → decode_utf8 bs ≡ cs
unfolding encode_utf8 decode_from
decode-encode_utf8 [] bs h = ground arith
decode-encode_utf8 (c ∷ cs) bs h = elim (Result-cases (encode_utf8 cs)) [
  | inl (ds, e) ↦ ground (arith, decode-encode_utf8 cs ds e, decode-encode_char c ds)
  | inr (x, e) ↦ absurd (ground arith)
]

abbrev pub all_of : (ℕ → Bool) → List ℕ → Bool
all_of f [] = true
all_of f (c ∷ cs) = f c && all_of f cs

pub all_of-append :
    (f : ℕ → Bool) (xs ys : List ℕ) → all_of f (xs ++ ys) ≡ (all_of f xs && all_of f ys)
all_of-append f [] ys = refl
all_of-append f (x ∷ xs) ys = ground (arith, all_of-append f xs ys)

abbrev pub is_byte : ℕ → Bool
is_byte b = ltb b 256

encode_char-bytes : (c : ℕ) → is_scalar c ≡ true → all_of is_byte (encode_char c) ≡ true
unfolding encode_char
encode_char-bytes c h = ground arith

encode_utf8-bytes : (cs : Text) (bs : Bytes) → encode_utf8 cs ≡ ok bs → all_of is_byte bs ≡ true
unfolding encode_utf8
encode_utf8-bytes [] bs h = ground arith
encode_utf8-bytes (c ∷ cs) bs h = elim (Result-cases (encode_utf8 cs)) [
  | inl (ds, e) ↦ ground (
    arith,
    encode_utf8-bytes cs ds e,
    encode_char-bytes c,
    all_of-append is_byte (encode_char c) ds,
  )
  | inr (x, e) ↦ absurd (ground arith)
]

hex_value-hex_digit : (n : ℕ) → n < 16 → hex_value (hex_digit n) ≡ some n
hex_value-hex_digit n h = ground arith

unquote-plain :
    (c : ℕ) (cs : Text)
    → nat_beq c b'%' ≡ false
    → unquote_to_bytes (c ∷ cs) ≡ c ∷ unquote_to_bytes cs
unfolding unquote_to_bytes
unquote-plain c [] h = refl
unquote-plain c (d ∷ []) h = refl
unquote-plain c (d ∷ e ∷ cs) h = rw h refl

unquote-escape :
    (h l : ℕ) (cs : Text) {m n : ℕ}
    → hex_value h ≡ some m
    → hex_value l ≡ some n
    → unquote_to_bytes (b'%' ∷ h ∷ l ∷ cs) ≡ (m * 16 + n) ∷ unquote_to_bytes cs
unfolding unquote_to_bytes
unquote-escape h l cs p q = rw (p, q) refl

unquote-quote_byte :
    (b : ℕ) (cs : Text) → b < 256 → unquote_to_bytes (quote_byte b ++ cs) ≡ b ∷ unquote_to_bytes cs
unfolding quote_byte
unquote-quote_byte b cs h = elim (Bool-cases (is_unreserved b)) [
  | inl plain ↦ rw plain (unquote-plain b cs (ground arith))
  | inr other ↦ rw other (
      unquote-escape (hex_digit (b / 16)) (hex_digit (b % 16)) cs
        (hex_value-hex_digit (b / 16) (omega arith)) (hex_value-hex_digit (b % 16) (omega arith))
      ∙ ap (λ (n : ℕ). n ∷ unquote_to_bytes cs) (omega arith))
]

pub unquote-quote_bytes :
    (bs : Bytes) → all_of is_byte bs ≡ true → unquote_to_bytes (quote_bytes bs) ≡ bs
unfolding quote_bytes unquote_to_bytes
unquote-quote_bytes [] h = refl
unquote-quote_bytes (b ∷ bs) h =
    unquote-quote_byte b (quote_bytes bs) (ground arith)
    ∙ ap (◌∷◌ b) (unquote-quote_bytes bs (ground arith))

-- The characters that quoting leaves.
abbrev pub is_quoted : ℕ → Bool
is_quoted c = is_unreserved c || nat_beq c b'%'

hex_digit-quoted : (n : ℕ) → n < 16 → is_quoted (hex_digit n) ≡ true
hex_digit-quoted n h = ground arith

quote_byte-quoted : (b : ℕ) → b < 256 → all_of is_quoted (quote_byte b) ≡ true
unfolding quote_byte
quote_byte-quoted b h = elim (Bool-cases (is_unreserved b)) [
  | inl plain ↦ rw plain (rw plain refl)
  | inr other ↦
      rw other
        (rw (hex_digit-quoted (b / 16) (omega arith), hex_digit-quoted (b % 16) (omega arith)) refl)
]

pub quote_bytes-quoted :
    (bs : Bytes) → all_of is_byte bs ≡ true → all_of is_quoted (quote_bytes bs) ≡ true
unfolding quote_bytes
quote_bytes-quoted [] h = refl
quote_bytes-quoted (b ∷ bs) h = ground (
  arith,
  all_of-append is_quoted (quote_byte b) (quote_bytes bs),
  quote_byte-quoted b,
  quote_bytes-quoted bs,
)

is_quoted-ascii : (c : ℕ) → is_quoted c ≡ true → ltb c 0x80 ≡ true
is_quoted-ascii c h = ground arith

unquote_runs-quoted :
    (run cs : Text)
    → all_of is_quoted cs ≡ true
    → unquote_runs run cs ≡ decode_utf8 (unquote_to_bytes (run ++ cs))
unfolding unquote_runs
unquote_runs-quoted run [] h = rw append-nil
unquote_runs-quoted run (c ∷ cs) h = rw (is_quoted-ascii c (ground arith)) (
    unquote_runs-quoted (run ++ c ∷ []) cs (ground arith)
    ∙ ap (λ (xs : List ℕ). decode_utf8 (unquote_to_bytes xs)) (append_assoc run (c ∷ []) cs))

-- Where a text can be quoted, unquoting the quoted text gives the text.
pub unquote-quote : (value quoted : Text) → quote value ≡ ok quoted → unquote quoted ≡ value
unfolding quote unquote
unquote-quote value quoted h = elim (Result-cases (encode_utf8 value)) [
  | inl (bs, e) ↦
      let bytes = encode_utf8-bytes value bs e in
      ground (
        arith,
        unquote_runs-quoted [] (quote_bytes bs) (quote_bytes-quoted bs bytes),
        unquote-quote_bytes bs bytes,
        decode-encode_utf8 value bs e,
      )
  | inr (x, e) ↦ absurd (ground arith)
]

pub quote-quoted : (value quoted : Text) → quote value ≡ ok quoted → all_of is_quoted quoted ≡ true
unfolding quote
quote-quoted value quoted h = elim (Result-cases (encode_utf8 value)) [
  | inl (bs, e) ↦ ground (arith, quote_bytes-quoted bs (encode_utf8-bytes value bs e))
  | inr (x, e) ↦ absurd (ground arith)
]
