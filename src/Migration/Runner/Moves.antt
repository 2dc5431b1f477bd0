-- ===== src/Migration/Runner/Moves.antt =====
-- What a round of _rebuild does with one record, where it does not raise.
use glyff.Prelude.{Option, some, List, [], ◌∷◌, ◌++◌, Text, ◌≡◌, arith}
use glyff.Types.{ExecutionId, ExecutionSequenceScope, scope_eq, frame, from_execution_id}
use glyff.Result.{Result, ok, >>=-eq-ok}
use glyff.Json.{Platform}
use glyff.Dict
use glyff.Dict.{Dict}
use glyff.Arguments.{CanonicalArguments}
use glyff.Execution.{Execution, post_init}
use glyff.Migration.Rules.{DomainVersionTransition, Remap}
use glyff.Migration.Runner.{
  Rebuilding, memoized, target_scope, id_in, require_one_source_scope, move,
}

module _ ⦃p : Platform⦄ {V : Type 0} (plan : DomainVersionTransition V)
    (canonicalize : Dict Text V → Result CanonicalArguments) (new_parent : Option ExecutionId)
    (e : Execution) (remap : Option (Remap V)) (s : Rebuilding) where
  abbrev pub scope_with : CanonicalArguments → ExecutionSequenceScope
  scope_with a = target_scope plan canonicalize new_parent e remap a

  abbrev pub id_with : CanonicalArguments → ExecutionId
  id_with a = id_in (scope_with a) (frame e.id).sequence

  pub record Moved (s' : Rebuilding) : Type 0 where
    pub arguments : CanonicalArguments
    pub by_target : Dict ExecutionSequenceScope (List ExecutionSequenceScope)
    pub moved : Execution
    pub memoized_lem :
        memoized plan canonicalize e remap
          (Dict.get s.arguments_by_source_scope (from_execution_id e.id))
        ≡ ok arguments
    pub scope_lem :
        require_one_source_scope s.source_scopes_by_target
          (scope_with arguments)
          (from_execution_id e.id)
        ≡ ok by_target
    pub built : post_init (record e { id = id_with arguments; arguments = arguments }) ≡ ok moved
    pub state : s' ≡ record {
      migrated = s.migrated ++ moved ∷ [];
      arguments_by_source_scope =
          Dict.set s.arguments_by_source_scope (from_execution_id e.id) arguments;
      source_scopes_by_target = by_target;
      stack = (some e.id, some (id_with arguments)) ∷ s.stack;
    }

  pub move-eq-ok :
      (s' : Rebuilding) → move plan canonicalize new_parent e remap s ≡ ok s' → Moved s'
  unfolding move
  move-eq-ok s' h =
      let (a, found, h1) =
        >>=-eq-ok
          (memoized plan canonicalize e remap
            (Dict.get s.arguments_by_source_scope (from_execution_id e.id)))
          _ h in
      let (by, fits, h2) =
        >>=-eq-ok
          (require_one_source_scope s.source_scopes_by_target (scope_with a)
            (from_execution_id e.id))
          _ h1 in
      let (m, built, h3) =
        >>=-eq-ok (post_init (record e { id = id_with a; arguments = a })) _ h2 in
      record {
        arguments = a;
        by_target = by;
        moved = m;
        memoized_lem = found;
        scope_lem = fits;
        built = built;
        state = ground (arith, h3);
      }
