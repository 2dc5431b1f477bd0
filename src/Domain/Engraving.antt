-- ===== src/Domain/Engraving.antt =====
-- Domain.engrave of packages/glyff/src/glyff/_domain.py: what makes a function an engraved one.
use glyff.Prelude.{Option, none, some, Text}
use glyff.Types.{ExecutionName}
use glyff.Types.Checks.{explicit}
use glyff.Result.{Result, ok, ◌>>=◌}
use glyff.Exec.{Exec}
use glyff.Json.{Platform}
use glyff.Dict.{Dict}
use glyff.Arguments.{CanonicalArguments}
use glyff.Session.{Context}
use glyff.Executor.{Services}
use glyff.Function.{Reflected, from_callable}
use glyff.Domain.{Domain, call}

abbrev pub explicit_name : Option Text → Result (Option ExecutionName)
explicit_name none = ok none
explicit_name (some name) = explicit name >>= λ n. ok (some n)

module _ ⦃p : Platform⦄ {S V T A : Type 0} (services : Services S V T)
    (canonicalize : Dict Text V → Result CanonicalArguments) where
  -- Domain.engrave
  unfoldable pub engrave :
      Domain
      → Reflected A V T
      → (A → Exec (Context S) V)
      → Option Text
      → Result (A → Exec (Context S) V)
  unfolding call
  engrave domain reflected func name = explicit_name name >>= λ resolved.
      from_callable reflected resolved >>= λ definition.
      ok (call services canonicalize domain definition func)
