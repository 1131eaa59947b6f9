-- ===== src/Converse/Replay/Bindings.antt =====
-- Statements and the values bound to them.
use cs.Prelude.{
  ℕ, ◌+◌, ◌≡◌, refl, Option, some, none, List, [], ◌∷◌, ◌++◌, length, length-append, arith,
}
use cs.Converse.Replay.{
  Piece, insert_into, open_columns, open_values, close_values, update, set_columns, where_columns,
  comma, conjunction, question, equals_question, name, Entries, OperationType, inserts, updates,
  removes, Operation, separated, columns_of, placeholders_of, clauses_of, values_of,
  insert_statement, where_part, update_statement, statement_of, replay,
}
use mathlib.Core.Path.{subst}

-- The placeholders of a statement.
abbrev pub placeholders : List Piece → ℕ
placeholders [] = 0
placeholders (question ∷ ps) = 1 + placeholders ps
placeholders (equals_question ∷ ps) = 1 + placeholders ps
placeholders (_ ∷ ps) = placeholders ps

placeholders-append :
    (ps qs : List Piece) → placeholders (ps ++ qs) ≡ placeholders ps + placeholders qs
placeholders-append [] qs = omega arith
placeholders-append (question ∷ ps) qs = omega (arith, placeholders-append ps qs)
placeholders-append (equals_question ∷ ps) qs = omega (arith, placeholders-append ps qs)
placeholders-append (insert_into ∷ ps) qs = placeholders-append ps qs
placeholders-append (open_columns ∷ ps) qs = placeholders-append ps qs
placeholders-append (open_values ∷ ps) qs = placeholders-append ps qs
placeholders-append (close_values ∷ ps) qs = placeholders-append ps qs
placeholders-append (update ∷ ps) qs = placeholders-append ps qs
placeholders-append (set_columns ∷ ps) qs = placeholders-append ps qs
placeholders-append (where_columns ∷ ps) qs = placeholders-append ps qs
placeholders-append (comma ∷ ps) qs = placeholders-append ps qs
placeholders-append (conjunction ∷ ps) qs = placeholders-append ps qs
placeholders-append (name n ∷ ps) qs = placeholders-append ps qs

no_columns : (es : Entries) → placeholders (separated comma (columns_of es)) ≡ 0
unfolding separated columns_of
no_columns [] = refl
no_columns (e ∷ []) = refl
no_columns (e ∷ f ∷ es) = no_columns (f ∷ es)

of_placeholders :
    (es : Entries) → placeholders (separated comma (placeholders_of es)) ≡ length (values_of es)
unfolding separated placeholders_of values_of
of_placeholders [] = refl
of_placeholders (e ∷ []) = refl
of_placeholders (e ∷ f ∷ es) = omega (arith, of_placeholders (f ∷ es))

of_clauses : (es : Entries) → placeholders (separated comma (clauses_of es)) ≡ length (values_of es)
unfolding separated clauses_of values_of
of_clauses [] = refl
of_clauses (e ∷ []) = refl
of_clauses (e ∷ f ∷ es) = omega (arith, of_clauses (f ∷ es))

of_conjunction :
    (es : Entries) → placeholders (separated conjunction (clauses_of es)) ≡ length (values_of es)
unfolding separated clauses_of values_of
of_conjunction [] = refl
of_conjunction (e ∷ []) = refl
of_conjunction (e ∷ f ∷ es) = omega (arith, of_conjunction (f ∷ es))

of_where : (es : Entries) → placeholders (where_part (clauses_of es)) ≡ length (values_of es)
unfolding where_part clauses_of values_of
of_where [] = refl
of_where (e ∷ es) = of_conjunction (e ∷ es)

of_insert : (op : Operation) → placeholders (insert_statement op) ≡ length (values_of op.new_values)
unfolding insert_statement
of_insert op =
    let columns = separated comma (columns_of op.new_values) in
    let questions = separated comma (placeholders_of op.new_values) in
    omega (
      arith,
      placeholders-append columns (open_values ∷ (questions ++ (close_values ∷ []))),
      placeholders-append questions (close_values ∷ []),
      no_columns op.new_values,
      of_placeholders op.new_values,
    )

of_update :
    (op : Operation)
    → placeholders (update_statement op)
      ≡ length (values_of op.new_values ++ values_of op.old_key_values)
unfolding update_statement
of_update op = omega (
  arith,
  placeholders-append (separated comma (clauses_of op.new_values))
      (where_part (clauses_of op.old_key_values)),
  of_clauses op.new_values,
  of_where op.old_key_values,
  length-append (values_of op.new_values) (values_of op.old_key_values),
)

AllBound : Option (List Piece × List (List ℕ)) → Type 0
AllBound none = Unit {0}
AllBound (some s) = placeholders s.0 ≡ length s.1

statement_of-AllBound : (t : OperationType) (op : Operation) → AllBound (statement_of t op)
unfolding statement_of AllBound
statement_of-AllBound inserts op = of_insert op
statement_of-AllBound updates op = of_update op
statement_of-AllBound removes op = tt

-- Every statement that is executed binds exactly one value to each of its placeholders.
pub replay-placeholders :
    (op : Operation) (sql : List Piece) (bound : List (List ℕ))
    → replay op ≡ some (sql, bound)
    → placeholders sql ≡ length bound
unfolding replay AllBound
replay-placeholders op sql bound e = subst AllBound e (statement_of-AllBound op.type op)
