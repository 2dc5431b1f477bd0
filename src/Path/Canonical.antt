-- ===== src/Path/Canonical.antt =====
-- About the paths that path_to_execution_id of packages/glyff/src/glyff/store/utils.py accepts.
use glyff.Prelude.{
  ℕ, true, false, Option, none, some, List, [], ◌∷◌, ◌++◌, Text, list_eq, nat_eq, ◌≡◌, refl, arith,
  ap, sym, ◌∙◌, not, Bool-cases, inl, inr, list_beq_iff,
}
use mathlib.Core.List.{append_assoc, append-nil, reverse, reverse-cons, reverse-reverse}
use glyff.Types.{ExecutionId, Frame, DomainId, ExecutionName, ArgumentsDigest, execution_id}
use glyff.Types.Checks.{domain_id, execution_name, arguments_digest, is_empty}
use glyff.Result.{Result, ok, require, value_error, Result-cases, >>=-eq-ok}
use glyff.Json.{ℤ, pos, negsuc}
use glyff.Text.Quote.{quote, unquote}
use glyff.Text.Decimal.{decimal, int_of}
use glyff.Text.Split.{partition, split, join}
use glyff.Text.Split.Laws.{partition-eq, partition_not_found, join-split}
use glyff.Path.{
  decode, decode_sequence, canonical_ordinal, format_frame, parse_frame_components, parse_parts,
  frames_up, execution_id_to_path, rebuild, rebuilt, path_to_execution_id,
}

quote-decode : (encoded value : Text) → decode encoded ≡ ok value → quote value ≡ ok encoded
unfolding decode
quote-decode encoded value h = elim (Result-cases (quote (unquote encoded))) [
  | inl (again, q) ↦ ground (arith, q, list_beq_iff again encoded)
  | inr (x, q) ↦ absurd (ground arith)
]

decimal-decode_sequence :
    (spelling : Text) (n : ℕ) → decode_sequence spelling ≡ ok n → decimal n ≡ spelling
unfolding decode_sequence
decimal-decode_sequence spelling n h = by_value (int_of spelling) h
  where
    by_value : (o : Option ℤ) → canonical_ordinal spelling o ≡ ok n → decimal n ≡ spelling
    by_value none e = absurd (ground arith)
    by_value (some (negsuc m)) e = absurd (ground arith)
    by_value (some (pos m)) e = ground (arith, list_beq_iff (decimal m) spelling)

domain_id-value : (t : Text) (d : DomainId) → domain_id t ≡ ok d → d.value ≡ t
unfolding domain_id
domain_id-value t d h = ground arith

execution_name-value : (t : Text) (d : ExecutionName) → execution_name t ≡ ok d → d.value ≡ t
unfolding execution_name
execution_name-value t d h = ground arith

arguments_digest-value : (t : Text) (d : ArgumentsDigest) → arguments_digest t ≡ ok d → d.value ≡ t
unfolding arguments_digest
arguments_digest-value t d h = ground arith

format-parse_parts :
    (domain name sequence digest : Text) (f : Frame)
    → parse_parts domain name sequence digest ≡ ok f
    → format_frame f ≡ ok (domain ++ b':' ∷ (name ++ b'#' ∷ (sequence ++ b':' ∷ digest)))
unfolding parse_parts format_frame
format-parse_parts domain name sequence digest f h =
    let (d', p, h1) = >>=-eq-ok (decode domain) _ h in
    let (d, q, h2) = >>=-eq-ok (domain_id d') _ h1 in
    let (n', r, h3) = >>=-eq-ok (decode name) _ h2 in
    let (n, s, h4) = >>=-eq-ok (execution_name n') _ h3 in
    let (o, t, h5) = >>=-eq-ok (decode_sequence sequence) _ h4 in
    let (a', u, h6) = >>=-eq-ok (decode digest) _ h5 in
    let (a, v, h7) = >>=-eq-ok (arguments_digest a') _ h6 in
    ground (
      arith,
      h7,
      domain_id-value d' d q,
      quote-decode domain d' p,
      execution_name-value n' n s,
      quote-decode name n' r,
      decimal-decode_sequence sequence o t,
      arguments_digest-value a' a v,
      quote-decode digest a' u,
    )

-- the tests of the parser, and its parts
parsed :
    (w : Text) (f : Frame)
    → parse_frame_components w ≡ ok f
    → let i = partition b'#' w in
      let n = partition b':' (i.0) in
      let o = partition b':' (i.2) in
      (is_empty (i.2) ≡ false)
      × (n.1 ≡ true)
      × (o.1 ≡ true)
      × (parse_parts (n.0) (n.2) (o.0) (o.2) ≡ ok f)
unfolding parse_frame_components
parsed w f h = ground arith

pub format-parse_frame :
    (w : Text) (f : Frame) → parse_frame_components w ≡ ok f → format_frame f ≡ ok w
format-parse_frame w f h =
    let i = partition b'#' w in
    let n = partition b':' (i.0) in
    let o = partition b':' (i.2) in
    let (full, found, found', parts) = parsed w f h in
    let cut : i.1 ≡ true = found_separator w full in
    let whole : i.0 ++ b'#' ∷ i.2 ≡ w = partition-eq b'#' w cut in
    let left : n.0 ++ b':' ∷ n.2 ≡ i.0 = partition-eq b':' (i.0) found in
    let right : o.0 ++ b':' ∷ o.2 ≡ i.2 = partition-eq b':' (i.2) found' in
    format-parse_parts (n.0) (n.2) (o.0) (o.2) f parts
    ∙ ap ok (
        ap (λ (x : Text). n.0 ++ b':' ∷ (n.2 ++ b'#' ∷ x)) right
        ∙ sym (append_assoc (n.0) (b':' ∷ n.2) (b'#' ∷ i.2))
        ∙ ap (λ (x : Text). x ++ b'#' ∷ i.2) left
        ∙ whole)
  where
    found_separator :
        (t : Text) → is_empty ((partition b'#' t).2) ≡ false → (partition b'#' t).1 ≡ true
    found_separator t e = elim (Bool-cases ((partition b'#' t).1)) [
      | inl y ↦ y
      | inr z ↦ absurd (ground (arith, partition_not_found b'#' t z))
    ]

-- the frames of a parent, its own first; none at the top
frames_above : Option ExecutionId → Result (List Text)
frames_above none = ok []
frames_above (some p) = frames_up p

frames_up-execution_id :
    (parent : Option ExecutionId) (f : Frame) (w : Text) (us : List Text)
    → format_frame f ≡ ok w
    → frames_above parent ≡ ok us
    → frames_up (execution_id parent f) ≡ ok (w ∷ us)
unfolding frames_up frames_above
frames_up-execution_id none f w us p q = ground (arith, p)
frames_up-execution_id (some e) f w us p q = ground (arith, p, q)

frames_above-rebuild :
    (parent o : Option ExecutionId) (ws us : List Text)
    → frames_above parent ≡ ok us
    → rebuild parent ws ≡ ok o
    → frames_above o ≡ ok (reverse ws ++ us)
unfolding rebuild
frames_above-rebuild parent o [] us a h = ground (arith, a)
frames_above-rebuild parent o (w ∷ ws) us a h =
    let (f, p, r) = >>=-eq-ok (parse_frame_components w) _ h in
    frames_above-rebuild (some (execution_id parent f)) o ws (w ∷ us)
      (unfold frames_above in frames_up-execution_id parent f w us (format-parse_frame w f p) a) r
    ∙ ap ok (
        sym (append_assoc (reverse ws) (w ∷ []) us)
        ∙ ap (λ (x : List Text). x ++ us) (sym (reverse-cons w ws)))

-- A path that is read as an execution id is the very path that the id is written as.
pub execution_id_to_path-path :
    (path : Text) (e : ExecutionId)
    → path_to_execution_id path ≡ ok e
    → execution_id_to_path e ≡ ok path
unfolding path_to_execution_id execution_id_to_path frames_above
execution_id_to_path-path path e h =
    let (_, _, h1) = >>=-eq-ok (require (not (is_empty path)) value_error) _ h in
    let (o, r, h2) = >>=-eq-ok (rebuild none (split b'/' path)) _ h1 in
    let some_id : o ≡ some e = rebuilt_some o h2 in
    let up = frames_above-rebuild none o (split b'/' path) [] refl r in
    let up' : frames_up e ≡ ok (reverse (split b'/' path)) =
      ap frames_above (sym some_id) ∙ up ∙ ap ok (append-nil (reverse (split b'/' path))) in
    rw up' (ap ok (ap (join b'/') (reverse-reverse (split b'/' path)) ∙ join-split b'/' path))
  where
    rebuilt_some : (x : Option ExecutionId) → rebuilt x ≡ ok e → x ≡ some e
    rebuilt_some none q = absurd (ground arith)
    rebuilt_some (some y) q = ground arith
