-- ===== src/Sqlite/Ranges.antt =====
-- About the range of paths that _select_range asks for.
use glyff.Prelude.{
  ℕ, suc, Text, Bool, Option, none, some, List, [], ◌∷◌, ◌++◌, sorted, ltb, list_eq, nat_eq, ◌≡◌,
  refl, arith, ap, sym, Bool-cases, inl, inr,
}
use glyff.Types.{ExecutionId}
use glyff.Result.{ok, >>=-eq-ok}
use glyff.Dict.{Dict}
use glyff.Path.{execution_id_to_path}
use glyff.Memory.{starts_with, prefix_of}
use glyff.Sqlite.Rows.{
  ExecutionRecord, Tables, prefix_upper_bound, in_range, rows_where, path_leb, select_range,
}

next_char :
    (c x : ℕ) (xs : Text) → in_range (c ∷ []) (suc c ∷ []) (x ∷ xs) ≡ starts_with (c ∷ []) (x ∷ xs)
next_char c x xs = ground arith

same_char :
    (c x : ℕ) (cs bound xs : Text)
    → in_range cs bound xs ≡ starts_with cs xs
    → in_range (c ∷ cs) (c ∷ bound) (x ∷ xs) ≡ starts_with (c ∷ cs) (x ∷ xs)
same_char c x cs bound xs h = ground (arith, h)

-- The texts between a prefix and its bound are those that start with it.
in_range-starts_with :
    (prefix bound path : Text)
    → prefix_upper_bound prefix ≡ ok bound
    → in_range prefix bound path ≡ starts_with prefix path
unfolding prefix_upper_bound
in_range-starts_with [] bound path h = absurd (ground (arith, h))
in_range-starts_with (c ∷ []) bound [] h = refl
in_range-starts_with (c ∷ []) bound (x ∷ xs) h = elim (Bool-cases (ltb c 0x10ffff)) [
  | inl below ↦
      let q : suc c ∷ [] ≡ bound = ground (arith, rw below at h) in rw (sym q) (next_char c x xs)
  | inr last ↦ absurd (ground (arith, rw last at h))
]
in_range-starts_with (c ∷ d ∷ cs) bound [] h = refl
in_range-starts_with (c ∷ d ∷ cs) bound (x ∷ xs) h =
    let (u, rest, same) = >>=-eq-ok (prefix_upper_bound (d ∷ cs)) (λ b. ok (c ∷ b)) h in
    let q : c ∷ u ≡ bound = ground (arith, same) in
    rw (sym q) (same_char c x (d ∷ cs) u xs (in_range-starts_with (d ∷ cs) u xs rest))

-- A prefix that ends in `/` has a bound.
bound_of : (path : Text) → (bound : Text) × (prefix_upper_bound (path ++ b'/' ∷ []) ≡ ok bound)
unfolding prefix_upper_bound
bound_of [] = (_, refl)
bound_of (c ∷ []) = (_, refl)
bound_of (c ∷ d ∷ cs) = let (bound, h) = bound_of (d ∷ cs) in (c ∷ bound, rw h refl)

rows_where-same :
    (f g : Text → Bool) (session_id : Text) (rows : Dict (Text × Text) ExecutionRecord)
    → ((path : Text) → f path ≡ g path)
    → rows_where f session_id rows ≡ rows_where g session_id rows
rows_where-same f g session_id [] h = refl
rows_where-same f g session_id ((key, r) ∷ rows) h =
    ground (arith, h (key.1), rows_where-same f g session_id rows h)

abbrev pub rows_under : Tables → Text → Text → List (Text × ExecutionRecord)
rows_under t session_id prefix =
    sorted path_leb (rows_where (starts_with prefix) session_id t.executions)

select_range-bounded :
    (t : Tables) (session_id prefix bound : Text)
    → prefix_upper_bound prefix ≡ ok bound
    → select_range t session_id prefix ≡ ok (rows_under t session_id prefix)
unfolding select_range
select_range-bounded t session_id [] bound h = refl
select_range-bounded t session_id (c ∷ cs) bound h = rw h (
    ap (λ rows. ok (sorted path_leb rows))
      (rows_where-same (in_range (c ∷ cs) bound) (starts_with (c ∷ cs)) session_id t.executions
        (λ path. in_range-starts_with (c ∷ cs) bound path h)))

-- The rows that a store asks for to enumerate a session, or what is under one execution of it, are
-- the session's rows whose path starts with the prefix, in path order: the range of paths from the
-- prefix to its bound has no other, and misses none.
pub select_range_lem :
    (t : Tables) (session_id : Text) (under : Option ExecutionId) (prefix : Text)
    → prefix_of under ≡ ok prefix
    → select_range t session_id prefix ≡ ok (rows_under t session_id prefix)
unfolding prefix_of select_range
select_range_lem t session_id none prefix h =
    let q : [] ≡ prefix = ground (arith, h) in rw (sym q) refl
select_range_lem t session_id (some e) prefix h =
    let (path, written, same) = >>=-eq-ok (execution_id_to_path e) (λ x. ok (x ++ b'/' ∷ [])) h in
    let q : path ++ b'/' ∷ [] ≡ prefix = ground (arith, same) in
    let (bound, bounded) = bound_of path in
    rw (sym q) (select_range-bounded t session_id (path ++ b'/' ∷ []) bound bounded)
