-- ===== src/Dialect/Marks.antt =====
-- What MySQL reads back from the text of a bulk insert: its parameter marks.
use outboxy.Base.{
  ℕ, suc, ◌+◌, ◌≡◌, refl, sym, ap, ◌∙◌, List, [], ◌∷◌, ◌++◌, map, some, Text, codes, length, ◌==◌,
  if◌then◌else◌, arith, length-append,
}
use mathlib.Core.List.{append-nil}
use outboxy.Dialect.{Value, SqlStatement, BuildBulkInsertParams, Outcome, returned, threw, JsError}
use outboxy.Dialect.Render.{join, mysql_values, all_params, in_parentheses}
use outboxy.Dialect.Mysql

-- The marks of a text.
unfoldable pub marks_in : Text → ℕ
marks_in [] = 0
marks_in (c ∷ s) = let rest = marks_in s in if c == b'?' then suc rest else rest

marks_in-append : (s t : Text) → marks_in (s ++ t) ≡ marks_in s + marks_in t
unfolding marks_in
marks_in-append [] t = omega arith
marks_in-append (c ∷ s) t = ground (arith, marks_in-append s t)

marks_in-row :
    (row : List Value) → marks_in (in_parentheses (map (λ v. codes "?") row)) ≡ length row
unfolding join marks_in
marks_in-row [] = refl
marks_in-row (v ∷ []) = refl
marks_in-row (v ∷ u ∷ row) = omega (arith, marks_in-row (u ∷ row))

marks_in-values :
    (rows : List (List Value))
    → marks_in (join (codes ", ") (mysql_values rows)) ≡ length (all_params rows)
unfolding join mysql_values all_params marks_in
marks_in-values [] = refl
marks_in-values (row ∷ []) = marks_in-row row ∙ ap length (sym (append-nil row))
marks_in-values (row ∷ row' ∷ rows) =
    let rest : Text = join (codes ", ") (mysql_values (row' ∷ rows)) in
    marks_in-append (in_parentheses (map (λ v. codes "?") row)) (codes ", " ++ rest)
    ∙ ap (λ n. n + marks_in rest) (marks_in-row row)
    ∙ ap (λ n. length row + n) (marks_in-values (row' ∷ rows))
    ∙ sym (length-append row (all_params (row' ∷ rows)))

-- The statement has a mark for each parameter.
abbrev pub Marked : Outcome JsError SqlStatement → Type 0
Marked (returned st) = marks_in st.sql ≡ length st.params
Marked (threw e) = ⊥

marks_in-insert_text :
    (target : Text) (columns : List Text) (rows : List (List Value))
    → marks_in target ≡ 0
    → marks_in (join (codes ", ") columns) ≡ 0
    → marks_in (Mysql.insert_text target columns (mysql_values rows) []) ≡ length (all_params rows)
unfolding Mysql.insert_text marks_in
marks_in-insert_text target columns rows plain plain' =
    marks_in-append target _
    ∙ ap
        (λ n.
          n + marks_in (join (codes ", ") columns ++ (codes ")\n      VALUES " ++ (values ++ []))))
        plain
    ∙ ap (λ n. 0 + n)
        (marks_in-append (join (codes ", ") columns) _
          ∙ ap (λ n. n + marks_in (values ++ [])) plain')
    ∙ omega (arith, ap marks_in (append-nil values), marks_in-values rows)
  where
    values : Text
    values = join (codes ", ") (mysql_values rows)

-- A bulk insert for MySQL, of the outbox as of the inbox, with an id for each row has as many marks in
-- its text as it carries parameters, however long the rows are. No column is spelled with a `?`.
pub build_bulk_insert-Marked :
    (p : BuildBulkInsertParams) (ids : List Text)
    → p.generated_ids ≡ some ids
    → length ids ≡ length p.rows
    → marks_in (join (codes ", ") p.columns) ≡ 0
    → Marked (Mysql.build_bulk_insert p) × Marked (Mysql.build_inbox_bulk_insert p)
unfolding Mysql.build_bulk_insert Mysql.build_inbox_bulk_insert marks_in
build_bulk_insert-Marked p ids given same plain = ground (
  arith,
  marks_in-insert_text (codes "INSERT INTO outbox_events") p.columns p.rows refl plain,
  marks_in-insert_text (codes "INSERT IGNORE INTO inbox_events") p.columns p.rows refl plain,
)
