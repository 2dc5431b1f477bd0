-- ===== src/Session/Claims/Agreement.antt =====
-- About `ensure` of DomainClaims, against what the store has recorded.
use glyff.Prelude.{
  none, some, ◌==◌, if◌then◌else◌, ◌≡◌, refl, arith, Option-cases, Bool-cases, inl, inr,
}
use glyff.Types.{
  SessionId, DomainId, DomainVersion, domain_id_eq, session_id_eq, domain_version_eq,
  DomainId-beq_iff, SessionId-beq_iff,
}
use glyff.Result.{Result, ok, err, domain_version_mismatch}
use glyff.Json.{Platform}
use glyff.Dict
use glyff.Dict.{Dict}
use glyff.Dict.Laws.{get-set}
use glyff.Backend.{Backend, View, Contract, claim, claimed_after}
use glyff.Session.{Context}
use glyff.Session.Claims.{ensure, observe, require_version}

-- A version that was observed is the one that the store has.
abbrev pub Agrees : SessionId → Dict DomainId DomainVersion → View → Type 0
Agrees sid observed v =
    (d : DomainId) (r : DomainVersion) → Dict.get observed d ≡ some r → v.claimed sid d ≡ some r

-- The answer to code of one version about records of another.
abbrev pub verdict : DomainId → DomainVersion → DomainVersion → Result (Unit {0})
verdict d version recorded =
    if recorded == version then ok tt else err (domain_version_mismatch d recorded version)

Agrees-set :
    (sid : SessionId) (observed : Dict DomainId DomainVersion) (v : View) (d : DomainId)
    (version : DomainVersion)
    → Agrees sid observed v
    → Agrees sid
        (Dict.set observed d (claim v sid d version))
        (record v { claimed = claimed_after v.claimed sid d version })
Agrees-set sid observed v d version h d' r q = ground (
  arith,
  q,
  get-set observed d d' (claim v sid d version),
  h d' r,
  DomainId-beq_iff d d',
  SessionId-beq_iff sid sid,
)

claimed_after-observed :
    (v : View) (sid : SessionId) (d : DomainId) (version r : DomainVersion)
    → v.claimed sid d ≡ some r
    → (s' : SessionId) (d' : DomainId)
    → v.claimed s' d' ≡ claimed_after v.claimed sid d version s' d'
claimed_after-observed v sid d version r h s' d' =
    ground (arith, h, DomainId-beq_iff d d', SessionId-beq_iff sid s')

module _ ⦃p : Platform⦄ {S : Type 0} (b : Backend S) (contract : Contract b) where
  open contract use {Models}

  require-verdict :
      (c : Context S) (sid : SessionId) (d : DomainId) (version r : DomainVersion)
      → require_version b sid d version r c ≡ (verdict d version r, c)
  unfolding require_version
  require-verdict c sid d version r = elim (Bool-cases (r == version)) [
    | inl same ↦ rw same refl
    | inr other ↦ rw other refl
  ]

  ensure-observed :
      (c : Context S) (sid : SessionId) (d : DomainId) (version r : DomainVersion)
      → Dict.get c.observed d ≡ some r
      → ensure b sid d version c ≡ (verdict d version r, c)
  unfolding ensure
  ensure-observed c sid d version r q = rw q (require-verdict c sid d version r)

  -- The session once it has claimed a domain.
  abbrev claimed_in : Context S → S → DomainId → DomainVersion → Context S
  claimed_in c s d r = record c { store = s; observed = Dict.set c.observed d r }

  ensure-unobserved :
      (c : Context S) (sid : SessionId) (d : DomainId) (version r : DomainVersion) (s : S)
      → Dict.get c.observed d ≡ none
      → b.claim_domain sid d version c.store ≡ (ok r, s)
      → ensure b sid d version c ≡ (verdict d version r, claimed_in c s d r)
  unfolding ensure observe
  ensure-unobserved c sid d version r s q claimed =
      rw q (rw q (rw claimed (require-verdict (claimed_in c s d r) sid d version r)))

  -- Where what the session has observed agrees with the store, `ensure` returns if the version that
  -- the store has, or else now claims, is the one asked for, and raises DomainVersionMismatchError
  -- if it is another; the store's records and transactions stay, its claims are those after one
  -- claim, and what the session has observed still agrees.
  pub ensure_lem :
      (c : Context S) (v : View) (sid : SessionId) (d : DomainId) (version : DomainVersion)
      → Models c.store v
      → Agrees sid c.observed v
      → ((ensure b sid d version c).0 ≡ verdict d version (claim v sid d version))
        × ((v' : View) × Models ((ensure b sid d version c).1).store v'
            × (v'.committed ≡ v.committed)
            × (v'.frames ≡ v.frames)
            × ((s' : SessionId) (d' : DomainId)
                → v'.claimed s' d' ≡ claimed_after v.claimed sid d version s' d')
            × Agrees sid ((ensure b sid d version c).1).observed v')
  ensure_lem c v sid d version h agrees = elim (Option-cases (Dict.get c.observed d)) [
    | inl q ↦
        let (s, claimed, h') = contract.claim_lem c.store v sid d version h in
        rw (ensure-unobserved c sid d version (claim v sid d version) s q claimed) (
          refl,
          (
            record v { claimed = claimed_after v.claimed sid d version },
            h',
            refl,
            refl,
            λ s' d'. refl,
            Agrees-set sid c.observed v d version agrees,
          ),
        )
    | inr (r, q) ↦
        let known = agrees d r q in
        rw (ensure-observed c sid d version r q) (
          rw known refl,
          (v, h, refl, refl, claimed_after-observed v sid d version r known, agrees),
        )
  ]

  -- `ensure` leaves the sequencer and the call stack.
  pub ensure-elsewhere :
      (c : Context S) (v : View) (sid : SessionId) (d : DomainId) (version : DomainVersion)
      → Models c.store v
      → (((ensure b sid d version c).1).sequencer ≡ c.sequencer)
        × (((ensure b sid d version c).1).stack ≡ c.stack)
  ensure-elsewhere c v sid d version h = elim (Option-cases (Dict.get c.observed d)) [
    | inl q ↦
        let (s, claimed, h') = contract.claim_lem c.store v sid d version h in
        rw (ensure-unobserved c sid d version (claim v sid d version) s q claimed) (refl, refl)
    | inr (r, q) ↦ rw (ensure-observed c sid d version r q) (refl, refl)
  ]
