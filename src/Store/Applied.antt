-- ===== src/Store/Applied.antt =====
-- What a commit does to the records of a store that keeps them under their session and path, in
-- whatever form it stores them.
use glyff.Prelude.{Text, Option, [], ◌∷◌, ◌&&◌, if◌then◌else◌, ◌==◌, list_eq, nat_eq}
use glyff.Result.{Result, ok, ◌>>=◌}
use glyff.Staging.{ExecutionKey, ExecutionMutation, Batch}

-- A record for each session and path.
abbrev pub Rows : Type 0 → Type 0
Rows R = Text → Text → Option R

module _ {R : Type 0} where
  abbrev pub row_set : Rows R → Text → Text → Option R → Rows R
  row_set rows s q o s' q' = if (s == s') && (q == q') then o else rows s' q'

  -- `entry` is where a mutation is written, and what is written there: a record, or none.
  module _ (entry : ExecutionKey → ExecutionMutation → Result (Text × Option R)) where
    abbrev pub applied : Batch → Rows R → Result (Rows R)
    applied [] rows = ok rows
    applied ((key, m) ∷ rest) rows =
        entry key m >>= λ w. applied rest (row_set rows key.session_id.value (w.0) (w.1))
