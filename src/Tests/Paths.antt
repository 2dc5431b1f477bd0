-- ===== src/Tests/Paths.antt =====
-- Paths of identities, and the texts that they are made of.
use glyff.Prelude.{Text, codes, ◌≡◌, refl}
use glyff.Types.Checks.{domain_id, execution_name, arguments_digest, matches_domain_id}
use glyff.Result.{ok}
use glyff.Path.{execution_id_to_path, path_to_execution_id, format_frame, frames_up}
use glyff.Path.Frames.{IsFrame}
use glyff.Path.Roundtrip.{path-execution_id_to_path}
use glyff.Path.Canonical.{execution_id_to_path-path}
use glyff.Text.Quote.{quote, quote_bytes}
use glyff.Text.Utf8.{encode_utf8, encode_char}
use glyff.Text.Split.{join}
use glyff.Text.Decimal.{decimal, digits_of}
use glyff.Tests.Data.{a_frame, a_call}

abbrev a_path : Text
a_path = codes "billing:Job%2Fgo#12:x/billing:Job%2Fgo#12:x"

written : execution_id_to_path a_call ≡ ok a_path
unfolding execution_id_to_path format_frame quote encode_utf8 join decimal digits_of frames_up
    quote_bytes encode_char
written = refl

a_frame-IsFrame : IsFrame a_frame
unfolding domain_id execution_name arguments_digest matches_domain_id
a_frame-IsFrame = record { domain = refl; name = refl; digest = refl }

path-execution_id_to_path_example : path_to_execution_id a_path ≡ ok a_call
path-execution_id_to_path_example =
    path-execution_id_to_path a_call a_path (a_frame-IsFrame, a_frame-IsFrame) written

execution_id_to_path-path_example : execution_id_to_path a_call ≡ ok a_path
execution_id_to_path-path_example =
    execution_id_to_path-path a_path a_call
      (path-execution_id_to_path a_call a_path (a_frame-IsFrame, a_frame-IsFrame) written)
