-- ===== src/Types.antt =====
-- packages/glyff/src/glyff/_types: the value objects that compose a recorded identity, and their
-- equality. What their constructors check is in the child Checks, after the errors are known.
pub mod Checks
use glyff.Prelude.{
  Text, ℕ, Option, none, some, Eq, ◌==◌, ◌≡◌, ◌↔◌, refl, Bool, true, false, ◌&&◌, arith, List, [],
  ◌∷◌, list_beq_iff, nat_beq_iff, beq_refl, option_beq_iff, list_eq, nat_eq, option_eq,
}

pub record SessionId : Type 0 where
  pub value : Text

pub record DomainId : Type 0 where
  pub value : Text

pub record DomainVersion : Type 0 where
  pub value : Text

pub record ExecutionName : Type 0 where
  pub value : Text

pub record ArgumentsDigest : Type 0 where
  pub value : Text

pub SessionId-beq_iff : (a b : SessionId) → ((a.value == b.value) ≡ true) ↔ (a ≡ b)
SessionId-beq_iff a b = ground (arith, list_beq_iff a.value b.value)

instance abbrev pub session_id_eq : Eq SessionId
session_id_eq = record { beq = λ a b. a.value == b.value; beq_iff = SessionId-beq_iff }

pub DomainId-beq_iff : (a b : DomainId) → ((a.value == b.value) ≡ true) ↔ (a ≡ b)
DomainId-beq_iff a b = ground (arith, list_beq_iff a.value b.value)

instance abbrev pub domain_id_eq : Eq DomainId
domain_id_eq = record { beq = λ a b. a.value == b.value; beq_iff = DomainId-beq_iff }

pub DomainVersion-beq_iff : (a b : DomainVersion) → ((a.value == b.value) ≡ true) ↔ (a ≡ b)
DomainVersion-beq_iff a b = ground (arith, list_beq_iff a.value b.value)

instance abbrev pub domain_version_eq : Eq DomainVersion
domain_version_eq = record { beq = λ a b. a.value == b.value; beq_iff = DomainVersion-beq_iff }

pub ExecutionName-beq_iff : (a b : ExecutionName) → ((a.value == b.value) ≡ true) ↔ (a ≡ b)
ExecutionName-beq_iff a b = ground (arith, list_beq_iff a.value b.value)

instance abbrev pub execution_name_eq : Eq ExecutionName
execution_name_eq = record { beq = λ a b. a.value == b.value; beq_iff = ExecutionName-beq_iff }

pub ArgumentsDigest-beq_iff : (a b : ArgumentsDigest) → ((a.value == b.value) ≡ true) ↔ (a ≡ b)
ArgumentsDigest-beq_iff a b = ground (arith, list_beq_iff a.value b.value)

instance abbrev pub arguments_digest_eq : Eq ArgumentsDigest
arguments_digest_eq = record { beq = λ a b. a.value == b.value; beq_iff = ArgumentsDigest-beq_iff }

-- The fields of an `ExecutionId` but its parent.
pub record Frame : Type 0 where
  pub domain_id : DomainId
  pub name : ExecutionName
  pub sequence : ℕ
  pub arguments_digest : ArgumentsDigest

abbrev pub frame_beq : Frame → Frame → Bool
frame_beq a b =
    (a.domain_id == b.domain_id)
    && ((a.name == b.name)
        && ((a.sequence == b.sequence) && (a.arguments_digest == b.arguments_digest)))

pub frame_beq_iff : (a b : Frame) → (frame_beq a b ≡ true) ↔ (a ≡ b)
frame_beq_iff a b = ground (
  arith,
  DomainId-beq_iff a.domain_id b.domain_id,
  ExecutionName-beq_iff a.name b.name,
  nat_beq_iff a.sequence b.sequence,
  ArgumentsDigest-beq_iff a.arguments_digest b.arguments_digest,
)

instance abbrev pub frame_eq : Eq Frame
frame_eq = record { beq = frame_beq; beq_iff = frame_beq_iff }

-- `parent_id` is `None` at `top`, and the first field of `child`.
pub data ExecutionId : Type 0 where
  top : Frame → ExecutionId
  child : ExecutionId → Frame → ExecutionId

abbrev pub execution_id_beq : ExecutionId → ExecutionId → Bool
execution_id_beq (top f) (top g) = f == g
execution_id_beq (child p f) (child q g) = execution_id_beq p q && (f == g)
execution_id_beq _ _ = false

pub execution_id_beq_iff : (a b : ExecutionId) → (execution_id_beq a b ≡ true) ↔ (a ≡ b)
execution_id_beq_iff (top f) (top g) = ground (arith, frame_beq_iff f g)
execution_id_beq_iff (top f) (child q g) = ground arith
execution_id_beq_iff (child p f) (top g) = ground arith
execution_id_beq_iff (child p f) (child q g) =
    ground (arith, execution_id_beq_iff p q, frame_beq_iff f g)

instance abbrev pub execution_id_eq : Eq ExecutionId
execution_id_eq = record { beq = execution_id_beq; beq_iff = execution_id_beq_iff }

abbrev pub parent_id : ExecutionId → Option ExecutionId
parent_id (top _) = none
parent_id (child p _) = some p

abbrev pub frame : ExecutionId → Frame
frame (top f) = f
frame (child _ f) = f

-- ExecutionId(parent_id=…, …)
abbrev pub execution_id : Option ExecutionId → Frame → ExecutionId
execution_id none f = top f
execution_id (some p) f = child p f

pub execution_id_parts : (e : ExecutionId) → execution_id (parent_id e) (frame e) ≡ e
execution_id_parts (top f) = refl
execution_id_parts (child p f) = refl

-- Everything of an identity except the ordinal.
pub record ExecutionSequenceScope : Type 0 where
  pub parent_id : Option ExecutionId
  pub domain_id : DomainId
  pub name : ExecutionName
  pub arguments_digest : ArgumentsDigest

abbrev pub scope_beq : ExecutionSequenceScope → ExecutionSequenceScope → Bool
scope_beq a b =
    (a.parent_id == b.parent_id)
    && ((a.domain_id == b.domain_id)
        && ((a.name == b.name) && (a.arguments_digest == b.arguments_digest)))

pub scope_beq_iff : (a b : ExecutionSequenceScope) → (scope_beq a b ≡ true) ↔ (a ≡ b)
scope_beq_iff a b = ground (
  arith,
  option_beq_iff a.parent_id b.parent_id,
  DomainId-beq_iff a.domain_id b.domain_id,
  ExecutionName-beq_iff a.name b.name,
  ArgumentsDigest-beq_iff a.arguments_digest b.arguments_digest,
)

instance abbrev pub scope_eq : Eq ExecutionSequenceScope
scope_eq = record { beq = scope_beq; beq_iff = scope_beq_iff }

unfoldable pub from_execution_id : ExecutionId → ExecutionSequenceScope
from_execution_id e = record {
  parent_id = parent_id e;
  domain_id = (frame e).domain_id;
  name = (frame e).name;
  arguments_digest = (frame e).arguments_digest;
}
