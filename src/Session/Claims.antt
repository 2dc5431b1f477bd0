-- ===== src/Session/Claims.antt =====
-- DomainClaims of packages/glyff/src/glyff/_domain_claims.py: the domain versions that a session
-- has observed. The locks are those of one task, and are never waited for.
pub mod Agreement
use glyff.Prelude.{Bool, Option, none, some, ◌==◌, if◌then◌else◌}
use glyff.Types.{SessionId, DomainId, DomainVersion, domain_id_eq, domain_version_eq}
use glyff.Result.{domain_version_mismatch}
use glyff.Exec.{Exec, pure, raise, put, ◌>>=◌, ◌>>◌}
use glyff.Dict
use glyff.Backend.{Backend}
use glyff.Session.{Context, in_store}

module _ {S : Type 0} (b : Backend S) (session_id : SessionId) where
  -- self._observed[domain_id] = observed
  abbrev pub record_observed : DomainId → DomainVersion → Exec (Context S) (Unit {0})
  record_observed domain_id observed c =
      put (record c { observed = Dict.set c.observed domain_id observed }) c

  abbrev pub observed_or :
      Option DomainVersion → Exec (Context S) DomainVersion → Exec (Context S) DomainVersion
  observed_or (some observed) otherwise = pure observed
  observed_or none otherwise = otherwise

  -- DomainClaims._observe
  unfoldable pub observe : DomainId → DomainVersion → Exec (Context S) DomainVersion
  observe domain_id version c =
      observed_or (Dict.get c.observed domain_id)
        (do
          observed ← in_store (b.claim_domain session_id domain_id version)
          record_observed domain_id observed
          pure observed)
        c

  -- DomainClaims._require
  unfoldable pub require_version :
      DomainId → DomainVersion → DomainVersion → Exec (Context S) (Unit {0})
  require_version domain_id version recorded =
      if recorded == version
      then pure tt
      else raise (domain_version_mismatch domain_id recorded version)

  -- DomainClaims.ensure
  unfoldable pub ensure : DomainId → DomainVersion → Exec (Context S) (Unit {0})
  unfolding observe require_version
  ensure domain_id version c =
      (do
        observed ← observed_or (Dict.get c.observed domain_id) (observe domain_id version)
        require_version domain_id version observed)
        c
