-- ===== src/Types/Checks.antt =====
-- What the constructors of the value objects accept, in packages/glyff/src/glyff/_types.
use glyff.Prelude.{
  ℕ, Bool, true, false, ◌&&◌, ◌||◌, List, [], ◌∷◌, Text, nat_beq, leb, if◌then◌else◌, list_eq,
  nat_eq,
}
use glyff.Types.{SessionId, DomainId, DomainVersion, ExecutionName, ArgumentsDigest, domain_id_eq}
use glyff.Result.{Result, ok, err, ◌>>◌, require, value_error}
use glyff.Dict
use glyff.Dict.{Dict}

abbrev between : ℕ → ℕ → ℕ → Bool
between lo hi c = leb lo c && leb c hi

-- [a-z0-9] and [a-z0-9_-]
abbrev pub starts_segment : ℕ → Bool
starts_segment c = between b'a' b'z' c || between b'0' b'9' c

abbrev pub in_segment : ℕ → Bool
in_segment c = starts_segment c || nat_beq c b'_' || nat_beq c b'-'

-- _DOMAIN_ID.fullmatch. `inside` says whether a segment has begun.
unfoldable pub matches_domain_id : Bool → Text → Bool
matches_domain_id inside [] = inside
matches_domain_id inside (c ∷ cs) =
    (if inside then in_segment c || nat_beq c b'.' else starts_segment c)
    && matches_domain_id (if nat_beq c b'.' then false else true) cs

-- DomainId(value)
unfoldable pub domain_id : Text → Result DomainId
unfolding matches_domain_id
domain_id value =
    if matches_domain_id false value then ok (record { value = value }) else err value_error

abbrev pub is_empty : Text → Bool
is_empty [] = true
is_empty (_ ∷ _) = false

-- DomainVersion(value)
unfoldable pub domain_version : Text → Result DomainVersion
domain_version value = if is_empty value then err value_error else ok (record { value = value })

-- SessionId(value)
unfoldable pub session_id : Text → Result SessionId
session_id value = if is_empty value then err value_error else ok (record { value = value })

-- ExecutionName(value)
unfoldable pub execution_name : Text → Result ExecutionName
execution_name value = if is_empty value then err value_error else ok (record { value = value })

abbrev pub starts_name : ℕ → Bool
starts_name c = between b'A' b'Z' c || between b'a' b'z' c || between b'0' b'9' c

abbrev pub in_name : ℕ → Bool
in_name c = starts_name c || nat_beq c b'.' || nat_beq c b'_' || nat_beq c b'-'

abbrev all_in_name : Text → Bool
all_in_name [] = true
all_in_name (c ∷ cs) = in_name c && all_in_name cs

-- _EXPLICIT_EXECUTION_NAME.fullmatch
abbrev matches_explicit : Text → Bool
matches_explicit [] = false
matches_explicit (c ∷ cs) = starts_name c && all_in_name cs

-- ExecutionName.explicit
unfoldable pub explicit : Text → Result ExecutionName
unfolding execution_name
explicit value = do require (matches_explicit value) value_error; execution_name value

-- ArgumentsDigest(value)
unfoldable pub arguments_digest : Text → Result ArgumentsDigest
arguments_digest value = if is_empty value then err value_error else ok (record { value = value })

-- DomainVersionMap(versions), of pairs that are identifiers and versions already
unfoldable pub domain_version_map :
    Dict DomainId DomainVersion
    → List (DomainId × DomainVersion)
    → Result (Dict DomainId DomainVersion)
domain_version_map normalized [] = ok normalized
domain_version_map normalized ((d, v) ∷ rest) =
    require (if Dict.has normalized d then false else true) value_error
    >> domain_version_map (Dict.set normalized d v) rest

-- DomainVersionMap.replacing
unfoldable pub replacing :
    Dict DomainId DomainVersion → DomainId → DomainVersion → Dict DomainId DomainVersion
replacing versions d v = Dict.set versions d v
