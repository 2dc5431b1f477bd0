-- ===== src/Path/Frames.antt =====
-- About one frame of a path: _format_frame and _parse_frame_components of
-- packages/glyff/src/glyff/store/utils.py.
use glyff.Prelude.{
  ℕ, Bool, true, false, [], ◌∷◌, ◌++◌, Text, list_eq, nat_eq, ◌≡◌, refl, arith, ap, sym, ◌∙◌,
  beq_refl, nat_beq, Bool-cases, inl, inr, eq_of_beq,
}
use mathlib.Core.List.{append_assoc}
use mathlib.Core.Bool.{false≢true}
use glyff.Types.{Frame}
use glyff.Types.Checks.{domain_id, execution_name, arguments_digest, is_empty}
use glyff.Result.{ok, Result-cases}
use glyff.Text.Quote.{quote}
use glyff.Text.Quote.Laws.{unquote-quote, quote-quoted, is_quoted, all_of, all_of-append}
use glyff.Text.Decimal.{decimal}
use glyff.Text.Decimal.Laws.{int-decimal, decimal-digits, is_digit}
use glyff.Text.Split.{partition}
use glyff.Text.Split.Laws.{Free, is_not, partition-Free}
use glyff.Path.{decode, decode_sequence, format_frame, parse_frame_components, parse_parts}

pub decode-quote : (value quoted : Text) → quote value ≡ ok quoted → decode quoted ≡ ok value
unfolding decode
decode-quote value quoted h = rw (unquote-quote value quoted h, h) (ground (arith, beq_refl quoted))

decode_sequence-decimal : (n : ℕ) → decode_sequence (decimal n) ≡ ok n
unfolding decode_sequence
decode_sequence-decimal n = rw (int-decimal n) (ground (arith, beq_refl (decimal n)))

-- What the constructors of its parts have accepted.
pub record IsFrame (f : Frame) : Type 0 where
  pub domain : domain_id f.domain_id.value ≡ ok f.domain_id
  pub name : execution_name f.name.value ≡ ok f.name
  pub digest : arguments_digest f.arguments_digest.value ≡ ok f.arguments_digest

all_of-weaken :
    (f g : ℕ → Bool)
    → ((c : ℕ) → f c ≡ true → g c ≡ true)
    → (cs : Text) → all_of f cs ≡ true
    → all_of g cs ≡ true
all_of-weaken f g h [] a = refl
all_of-weaken f g h (c ∷ cs) a = ground (arith, h c, all_of-weaken f g h cs)

quoted-not : (sep : ℕ) → is_quoted sep ≡ false → (c : ℕ) → is_quoted c ≡ true → is_not sep c ≡ true
quoted-not sep h c q = elim (Bool-cases (nat_beq c sep)) [
  | inl same ↦ absurd (false≢true (sym h ∙ ap is_quoted (sym (eq_of_beq c sep same)) ∙ q))
  | inr other ↦ rw other refl
]

pub quote-Free :
    (sep : ℕ) (value quoted : Text)
    → is_quoted sep ≡ false
    → quote value ≡ ok quoted
    → Free sep quoted
quote-Free sep value quoted s h =
    all_of-weaken is_quoted (is_not sep) (quoted-not sep s) quoted (quote-quoted value quoted h)

digits-not_colon : (c : ℕ) → is_digit c ≡ true → is_not b':' c ≡ true
digits-not_colon c h = ground arith

digits-not_slash : (c : ℕ) → is_digit c ≡ true → is_not b'/' c ≡ true
digits-not_slash c h = ground arith

decimal-Free_colon : (n : ℕ) → Free b':' (decimal n)
decimal-Free_colon n =
    all_of-weaken is_digit (is_not b':') digits-not_colon (decimal n) (decimal-digits n)

decimal-Free_slash : (n : ℕ) → Free b'/' (decimal n)
decimal-Free_slash n =
    all_of-weaken is_digit (is_not b'/') digits-not_slash (decimal n) (decimal-digits n)

abbrev frame_text : Text → Text → ℕ → Text → Text
frame_text domain name sequence digest =
    domain ++ b':' ∷ (name ++ b'#' ∷ (decimal sequence ++ b':' ∷ digest))

-- A formatted frame, by its quoted parts.
formatted :
    (f : Frame) (w : Text)
    → format_frame f ≡ ok w
    → (domain : Text) × (name : Text) × (digest : Text) × (quote f.domain_id.value ≡ ok domain)
      × (quote f.name.value ≡ ok name)
      × (quote f.arguments_digest.value ≡ ok digest)
      × (w ≡ frame_text domain name f.sequence digest)
unfolding format_frame
formatted f w h = elim (Result-cases (quote f.domain_id.value)) [
  | inl (d, p) ↦ elim (Result-cases (quote f.name.value)) [
    | inl (n, q) ↦ elim (Result-cases (quote f.arguments_digest.value)) [
      | inl (a, r) ↦ (d, n, a, p, q, r, ground arith)
      | inr (x, r) ↦ absurd (ground arith)
    ]
    | inr (x, q) ↦ absurd (ground arith)
  ]
  | inr (x, p) ↦ absurd (ground arith)
]

append-not_empty : (xs : Text) (c : ℕ) (ys : Text) → is_empty (xs ++ c ∷ ys) ≡ false
append-not_empty [] c ys = refl
append-not_empty (x ∷ xs) c ys = refl

partition-frame :
    (domain name digest : Text) (n : ℕ)
    → Free b'#' domain
    → Free b'#' name
    → partition b'#' (frame_text domain name n digest)
      ≡ (domain ++ b':' ∷ name, true, decimal n ++ b':' ∷ digest)
partition-frame domain name digest n hd hn =
    ap (partition b'#')
      (sym (append_assoc domain (b':' ∷ name) (b'#' ∷ (decimal n ++ b':' ∷ digest))))
    ∙ partition-Free b'#' (domain ++ b':' ∷ name) (decimal n ++ b':' ∷ digest)
        (ground (arith, all_of-append (is_not b'#') domain (b':' ∷ name)))

pub parse-format_frame :
    (f : Frame) (w : Text) → IsFrame f → format_frame f ≡ ok w → parse_frame_components w ≡ ok f
unfolding parse_frame_components parse_parts
parse-format_frame f w v h =
    let (d, n, a, p, q, r, e) = formatted f w h in
    rw e (
      rw
        (partition-frame d n a f.sequence (quote-Free b'#' _ d refl p) (quote-Free b'#' _ n refl q))
        (rw (append-not_empty (decimal f.sequence) b':' a) (
          rw (partition-Free b':' d n (quote-Free b':' _ d refl p)) (
            rw (partition-Free b':' (decimal f.sequence) a (decimal-Free_colon f.sequence)) (
              rw (decode-quote _ d p) (
                rw v.domain (
                  rw (decode-quote _ n q) (
                    rw v.name (
                      rw (decode_sequence-decimal f.sequence)
                        (rw (decode-quote _ a r) (rw v.digest refl)))))))))))

-- A formatted frame has no slash, and is not empty.
pub format_frame-Free : (f : Frame) (w : Text) → format_frame f ≡ ok w → Free b'/' w
format_frame-Free f w h =
    let (d, n, a, p, q, r, e) = formatted f w h in
    let rest = decimal f.sequence ++ b':' ∷ a in
    ground (
      arith,
      e,
      quote-Free b'/' f.domain_id.value d refl p,
      quote-Free b'/' f.name.value n refl q,
      quote-Free b'/' f.arguments_digest.value a refl r,
      decimal-Free_slash f.sequence,
      all_of-append (is_not b'/') d (b':' ∷ (n ++ b'#' ∷ rest)),
      all_of-append (is_not b'/') n (b'#' ∷ rest),
      all_of-append (is_not b'/') (decimal f.sequence) (b':' ∷ a),
    )

pub format_frame-not_empty : (f : Frame) (w : Text) → format_frame f ≡ ok w → is_empty w ≡ false
format_frame-not_empty f w h =
    let (d, n, a, p, q, r, e) = formatted f w h in
    rw e (append-not_empty d b':' (n ++ b'#' ∷ (decimal f.sequence ++ b':' ∷ a)))
