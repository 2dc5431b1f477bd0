-- ===== src/Migration/Rules.antt =====
-- The shapes and rules of packages/glyff/src/glyff/migration/_migrator.py.
use glyff.Prelude.{
  Bool, true, ◌&&◌, Option, none, some, List, [], ◌∷◌, Text, if◌then◌else◌, member, not, list_eq,
  nat_eq, ◌==◌,
}
use glyff.Types.{ExecutionName, DomainId, DomainVersion, domain_id_eq, execution_name_eq}
use glyff.Result.{Result, ok, ◌>>◌, require, migration, value_error}
use glyff.Dict
use glyff.Dict.{Dict}
use glyff.Arguments.{Entries}

-- The names of the arguments are a `frozenset`.
pub record ExecutionShape : Type 0 where
  pub name : ExecutionName
  pub argument_names : List Text

abbrev pub are_distinct : List Text → Bool
are_distinct [] = true
are_distinct (n ∷ ns) = not (member n ns) && are_distinct ns

-- ExecutionShape(name, *argument_names), of a name that is an ExecutionName
unfoldable pub execution_shape : ExecutionName → List Text → Result ExecutionShape
execution_shape name argument_names = do
  require (are_distinct argument_names) value_error
  ok (record { name = name; argument_names = argument_names })

abbrev pub is_subset : List Text → List Text → Bool
is_subset [] ys = true
is_subset (x ∷ xs) ys = member x ys && is_subset xs ys

-- == on sets
unfoldable pub same_names : List Text → List Text → Bool
same_names xs ys = is_subset xs ys && is_subset ys xs

-- _ArgumentConverter: recorded arguments in, converted arguments of any values out
abbrev pub Converter : Type 0 → Type 0
Converter V = Entries → Result (Dict Text V)

-- _Remap
pub record Remap (V : Type 0) : Type 0 where
  pub source : ExecutionShape
  pub target : ExecutionShape
  pub convert_arguments : Option (Converter V)

-- _Rule, and _Drop
pub data Rule (V : Type 0) : Type 0 where
  remap_rule : Remap V → Rule V
  drop_rule : ExecutionShape → Rule V

pub record DomainVersionTransition (V : Type 0) : Type 0 where
  pub domain_id : DomainId
  pub source_version : DomainVersion
  pub target_version : DomainVersion
  pub rules : Dict ExecutionName (Rule V)

module _ {V : Type 0} where
  -- DomainVersionTransition._register
  unfoldable pub register_rule :
      ExecutionName → Rule V → DomainVersionTransition V → Result (DomainVersionTransition V)
  register_rule key rule t = do
    require (not (Dict.has t.rules key)) migration
    ok (record t { rules = Dict.set t.rules key rule })

  abbrev pub carries_over : ExecutionShape → ExecutionShape → Option (Converter V) → Bool
  carries_over source target (some convert) = true
  carries_over source target none = same_names source.argument_names target.argument_names

  -- DomainVersionTransition.remap
  unfoldable pub remap :
      ExecutionShape
      → ExecutionShape
      → Option (Converter V)
      → DomainVersionTransition V
      → Result (DomainVersionTransition V)
  unfolding register_rule same_names
  remap source target convert_arguments t = do
    require (carries_over source target convert_arguments) migration
    register_rule source.name
        (remap_rule
          (record { source = source; target = target; convert_arguments = convert_arguments }))
        t

  -- DomainVersionTransition.drop
  unfoldable pub drop :
      ExecutionShape → DomainVersionTransition V → Result (DomainVersionTransition V)
  unfolding register_rule
  drop source t = register_rule source.name (drop_rule source) t

  -- _ExecutionMigrationPlan.rule_for, of the plan that the transition makes
  unfoldable pub rule_for : DomainVersionTransition V → DomainId → ExecutionName → Option (Rule V)
  rule_for plan domain_id name =
      if domain_id == plan.domain_id then Dict.get plan.rules name else none
