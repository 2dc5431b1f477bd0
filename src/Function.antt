-- ===== src/Function.antt =====
-- packages/glyff/src/glyff/_function.py: what an engraved function is read as. What `inspect` says
-- of a function is a parameter.
use glyff.Prelude.{
  Bool, true, false, ◌||◌, Option, none, some, List, [], ◌∷◌, ◌++◌, Text, codes, if◌then◌else◌,
  ◌==◌, member, list_eq, nat_eq,
}
use glyff.Types.{ExecutionName}
use glyff.Types.Checks.{execution_name}
use glyff.Result.{
  Result, ok, err, ◌>>=◌, ◌>>◌, is_exception, missing_type_hint, type_hint_resolution, key_error,
}
use glyff.Dict
use glyff.Dict.{Dict}

-- inspect.Parameter
pub data ParameterKind : Type 0 where
  positional_only positional_or_keyword var_positional keyword_only var_keyword : ParameterKind

pub record Parameter : Type 0 where
  pub name : Text
  pub kind : ParameterKind

abbrev pub is_variadic : ParameterKind → Bool
is_variadic var_positional = true
is_variadic var_keyword = true
is_variadic _ = false

-- What `inspect` reads of a function, over the arguments `A` of a call, values `V` and hints `T`.
pub record Reflected (A V T : Type 0) : Type 0 where
  pub module_name : Text
  pub qualname : Text
  pub parameters : List Parameter
  -- bind and apply_defaults
  pub bind_arguments : A → Result (Dict Text V)
  -- get_annotations without and with eval_str
  pub annotated : List Text
  pub type_hints : Result (Dict Text T)

-- FunctionDefinition, but its `func`
pub record FunctionDefinition (A V T : Type 0) : Type 0 where
  pub name : ExecutionName
  pub return_type : T
  pub bind_arguments : A → Result (Dict Text V)

abbrev pub is_receiver : Text → Bool
is_receiver name = (name == codes "self") || (name == codes "cls")

abbrev pub needs_hint : List Text → Parameter → Bool
needs_hint annotated q =
    if is_receiver q.name
    then false
    else if is_variadic q.kind
    then false
    else if member q.name annotated
    then false
    else true

abbrev pub missing_among : List Parameter → List Text → List Text
missing_among [] annotated = []
missing_among (q ∷ qs) annotated =
    if needs_hint annotated q
    then q.name ∷ missing_among qs annotated
    else missing_among qs annotated

-- _missing_required_type_hints
unfoldable pub missing_required_type_hints : List Parameter → List Text → List Text
missing_required_type_hints parameters annotated =
    (if member (codes "return") annotated then [] else codes "return" ∷ [])
    ++ missing_among parameters annotated

abbrev pub none_missing : List Text → Result (Unit {0})
none_missing [] = ok tt
none_missing (_ ∷ _) = err missing_type_hint

-- except Exception as e: raise TypeHintResolutionError from e
abbrev pub unresolved {ℓ} : {A : Type ℓ} → Result A → Result A
unresolved (ok a) = ok a
unresolved (err e) = if is_exception e then err type_hint_resolution else err e

abbrev pub named_or : Option ExecutionName → Text → Result ExecutionName
named_or none inferred = execution_name inferred
named_or (some name) inferred = ok name

abbrev pub subscript {ℓ} : {A : Type ℓ} → Option A → Result A
subscript none = err key_error
subscript (some a) = ok a

module _ {A V T : Type 0} where
  abbrev pub inferred_name : Reflected A V T → Text
  inferred_name func = func.module_name ++ codes "." ++ func.qualname

  -- FunctionDefinition.from_callable
  unfoldable pub from_callable :
      Reflected A V T → Option ExecutionName → Result (FunctionDefinition A V T)
  unfolding missing_required_type_hints
  from_callable func name = do
    resolved_name ← named_or name (inferred_name func)
    none_missing (missing_required_type_hints func.parameters func.annotated)
    type_hints ← unresolved func.type_hints
    return_type ← subscript (Dict.get type_hints (codes "return"))
    ok (record {
      name = resolved_name;
      return_type = return_type;
      bind_arguments = func.bind_arguments;
    })

  -- FunctionDefinition.bind
  unfoldable pub bind : FunctionDefinition A V T → A → Result (Dict Text V)
  bind definition args = definition.bind_arguments args
