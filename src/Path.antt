-- ===== src/Path.antt =====
-- packages/glyff/src/glyff/store/utils.py: execution ids as slash-separated paths.
pub mod Frames
pub mod Roundtrip
pub mod Canonical
use glyff.Prelude.{
  ℕ, Bool, true, false, Option, none, some, List, [], ◌∷◌, ◌++◌, Text, if◌then◌else◌, ◌==◌, list_eq,
  nat_eq, not,
}
use mathlib.Core.List.{reverse}
use glyff.Types.{
  ExecutionId, Frame, DomainId, ExecutionName, ArgumentsDigest, top, child, execution_id,
}
use glyff.Types.Checks.{domain_id, execution_name, arguments_digest, is_empty}
use glyff.Result.{Result, ok, err, ◌>>=◌, ◌>>◌, require, value_error}
use glyff.Json.{ℤ, pos, negsuc}
use glyff.Text.Quote.{quote, unquote}
use glyff.Text.Decimal.{decimal, int_of}
use glyff.Text.Split.{partition, split, join}

-- _decode
unfoldable pub decode : Text → Result Text
decode encoded = do
  again ← quote (unquote encoded)
  require (again == encoded) value_error
  ok (unquote encoded)

abbrev pub canonical_ordinal : Text → Option ℤ → Result ℕ
canonical_ordinal spelling none = err value_error
canonical_ordinal spelling (some (negsuc n)) = err value_error
canonical_ordinal spelling (some (pos n)) = if decimal n == spelling then ok n else err value_error

-- _decode_sequence
unfoldable pub decode_sequence : Text → Result ℕ
decode_sequence spelling = canonical_ordinal spelling (int_of spelling)

-- _format_frame
unfoldable pub format_frame : Frame → Result Text
format_frame f = do
  domain ← quote f.domain_id.value
  name ← quote f.name.value
  digest ← quote f.arguments_digest.value
  ok (domain ++ b':' ∷ (name ++ b'#' ∷ (decimal f.sequence ++ b':' ∷ digest)))

-- the result of _parse_frame_components, from the four parts
unfoldable pub parse_parts : Text → Text → Text → Text → Result Frame
parse_parts domain name sequence digest = do
  decoded_domain ← decode domain
  d ← domain_id decoded_domain
  decoded_name ← decode name
  n ← execution_name decoded_name
  s ← decode_sequence sequence
  decoded_digest ← decode digest
  a ← arguments_digest decoded_digest
  ok (record { domain_id = d; name = n; sequence = s; arguments_digest = a })

-- _parse_frame_components
unfoldable pub parse_frame_components : Text → Result Frame
parse_frame_components frame_str = do
  let (identity, _, ordinal) = partition b'#' frame_str
  require (not (is_empty ordinal)) value_error
  let (domain, separator, name) = partition b':' identity
  require separator value_error
  let (sequence, separator', digest) = partition b':' ordinal
  require separator' value_error
  parse_parts domain name sequence digest

-- the loop of execution_id_to_path: the frames of an id, its own first
unfoldable pub frames_up : ExecutionId → Result (List Text)
frames_up (top f) = do w ← format_frame f; ok (w ∷ [])
frames_up (child p f) = do w ← format_frame f; ws ← frames_up p; ok (w ∷ ws)

-- execution_id_to_path
unfoldable pub execution_id_to_path : ExecutionId → Result Text
unfolding frames_up
execution_id_to_path e = frames_up e >>= λ ws. ok (join b'/' (reverse ws))

-- the loop of path_to_execution_id
unfoldable pub rebuild : Option ExecutionId → List Text → Result (Option ExecutionId)
rebuild parent [] = ok parent
rebuild parent (w ∷ ws) =
    parse_frame_components w >>= λ f. rebuild (some (execution_id parent f)) ws

abbrev pub rebuilt : Option ExecutionId → Result ExecutionId
rebuilt none = err value_error
rebuilt (some e) = ok e

-- path_to_execution_id
unfoldable pub path_to_execution_id : Text → Result ExecutionId
unfolding rebuild
path_to_execution_id path = do
  require (not (is_empty path)) value_error
  e ← rebuild none (split b'/' path)
  rebuilt e
