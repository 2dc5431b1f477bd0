-- ===== src/Domain.antt =====
-- packages/glyff/src/glyff/_domain.py: a domain's engraved functions, from the claim of the domain's
-- version to the result of the call.
pub mod Engraving
pub mod Calls
use glyff.Prelude.{ℕ, Bool, true, false, ◌&&◌, Option, none, some, Text, ◌==◌}
use glyff.Types.{
  ExecutionId, ExecutionName, DomainId, DomainVersion, Frame, execution_id, domain_id_eq,
  domain_version_eq,
}
use glyff.Result.{Result}
use glyff.Exec.{Exec, lift, pure, ◌>>=◌, ◌>>◌}
use glyff.Json.{Platform}
use glyff.Dict.{Dict}
use glyff.Arguments.{CanonicalArguments, digest}
use glyff.Sequencer.{next}
use glyff.Session.{Context, in_sequencer}
use glyff.Session.Tracer.{current}
use glyff.Session.Claims.{ensure}
use glyff.Executor.{Services, execute}
use glyff.Function.{FunctionDefinition, bind}

pub record Domain : Type 0 where
  pub id : DomainId
  pub version : DomainVersion

-- Domain.__eq__, on domains
unfoldable pub domain_beq : Domain → Domain → Bool
domain_beq a b = (a.id == b.id) && (a.version == b.version)

module _ ⦃p : Platform⦄ where
  abbrev pub call_frame : DomainId → ExecutionName → CanonicalArguments → ℕ → Frame
  call_frame domain_id name a sequence = record {
    domain_id = domain_id;
    name = name;
    sequence = sequence;
    arguments_digest = digest a;
  }

module _ ⦃p : Platform⦄ {S V T A : Type 0} (services : Services S V T)
    (canonicalize : Dict Text V → Result CanonicalArguments) where
  open services use {session_id, backend}

  -- _resolve_call_identity. An error of the canonicalizer is raised again, of the same class.
  unfoldable pub resolve_call_identity :
      DomainId → FunctionDefinition A V T → A → Exec (Context S) (ExecutionId × CanonicalArguments)
  unfolding bind
  resolve_call_identity domain_id definition args c =
      (do
        arguments ← lift (bind definition args)
        a ← lift (canonicalize arguments)
        seq ← in_sequencer (next (current c) domain_id definition.name (digest a))
        pure (execution_id (current c) (call_frame domain_id definition.name a seq), a))
        c

  -- `wrapper` of Domain._engrave, in a session's context
  unfoldable pub call :
      Domain → FunctionDefinition A V T → (A → Exec (Context S) V) → A → Exec (Context S) V
  unfolding resolve_call_identity
  call domain definition func args = do
    ensure backend session_id domain.id domain.version
    (i, a) ← resolve_call_identity domain.id definition args
    execute services i a (func args) definition.return_type
