-- ===== src/Dialect/Placeholders.antt =====
-- What PostgreSQL reads back from the text of a bulk insert: the numbers of its parameters.
use outboxy.Base.{
  ℕ, zero, suc, ◌+◌, ◌*◌, ◌/◌, ◌%◌, ◌≡◌, refl, sym, ap, ◌∙◌, Bool, true, false, not, ◌&&◌, List, [],
  ◌∷◌, ◌++◌, Text, codes, length, leb, ◌==◌, if◌then◌else◌, arith, All, length-append,
}
use outboxy.Dialect.{Value, SqlStatement, BuildBulkInsertParams, Outcome, returned, threw, JsError}
use outboxy.Dialect.Render.{
  decimal, decimal_loop, join, row_placeholders, postgres_values, all_params, in_parentheses,
  postgres_placeholder,
}
use mathlib.Core.List.{append_assoc, append-nil}
use outboxy.Dialect.Postgres

abbrev pub is_digit : ℕ → Bool
is_digit c = leb b'0' c && leb c b'9'

unfoldable pub leading_digits : Text → Text
leading_digits [] = []
leading_digits (c ∷ s) = let rest = leading_digits s in if is_digit c then c ∷ rest else []

-- The digits after each `$` of a text, in order.
unfoldable pub numbers_in : Text → List Text
unfolding leading_digits
numbers_in [] = []
numbers_in (c ∷ s) = let rest = numbers_in s in if c == b'$' then leading_digits s ∷ rest else rest

-- The numbers from `i + 1` to `i + n`, as PostgreSQL counts parameters.
unfoldable pub numbers_from : ℕ → ℕ → List Text
numbers_from i zero = []
numbers_from i (suc n) = decimal (i + 1) ∷ numbers_from (i + 1) n

-- A text without a character.
unfoldable pub lacks : ℕ → Text → Bool
lacks d [] = true
lacks d (c ∷ s) = not (c == d) && lacks d s

lacks-append : (d : ℕ) (s t : Text) → lacks d (s ++ t) ≡ (lacks d s && lacks d t)
unfolding lacks
lacks-append d [] t = refl
lacks-append d (c ∷ s) t = ground (arith, lacks-append d s t)

-- A text of digits only.
unfoldable all_digits : Text → Bool
all_digits [] = true
all_digits (c ∷ s) = is_digit c && all_digits s

all_digits-append : (s t : Text) → all_digits (s ++ t) ≡ (all_digits s && all_digits t)
unfolding all_digits
all_digits-append [] t = refl
all_digits-append (c ∷ s) t = ground (arith, all_digits-append s t)

all_digits-decimal_loop : (fuel n : ℕ) → all_digits (decimal_loop fuel n) ≡ true
unfolding all_digits
all_digits-decimal_loop zero n = refl
all_digits-decimal_loop (suc fuel) n = ground (
  arith,
  all_digits-decimal_loop fuel (n / 10),
  all_digits-append (decimal_loop fuel (n / 10)) ((48 + n % 10) ∷ []),
)

leading_digits-append :
    (s : Text) (c : ℕ) (t : Text)
    → all_digits s ≡ true
    → is_digit c ≡ false
    → leading_digits (s ++ c ∷ t) ≡ s
unfolding all_digits leading_digits
leading_digits-append [] c t h stop = ground arith
leading_digits-append (a ∷ s) c t h stop = ground (arith, leading_digits-append s c t)

numbers_in-skip : (s t : Text) → lacks b'$' s ≡ true → numbers_in (s ++ t) ≡ numbers_in t
unfolding numbers_in lacks
numbers_in-skip [] t h = refl
numbers_in-skip (c ∷ s) t h = ground (arith, numbers_in-skip s t)

numbers_in-digits : (s t : Text) → all_digits s ≡ true → numbers_in (s ++ t) ≡ numbers_in t
unfolding numbers_in all_digits
numbers_in-digits [] t h = refl
numbers_in-digits (c ∷ s) t h = ground (arith, numbers_in-digits s t)

-- One placeholder, and a character that ends its number.
numbers_in-placeholder :
    (n c : ℕ) (t : Text)
    → is_digit c ≡ false
    → numbers_in (postgres_placeholder n ++ c ∷ t) ≡ decimal n ∷ numbers_in (c ∷ t)
unfolding numbers_in postgres_placeholder decimal
numbers_in-placeholder n c t stop =
    let digits : all_digits (decimal n) ≡ true = all_digits-decimal_loop (n + 1) n in
    rw
      (
        leading_digits-append (decimal n) c t digits stop,
        numbers_in-digits (decimal n) (c ∷ t) digits,
      )
      refl

numbers_in-row :
    (width row_idx col_idx : ℕ) (row : List Value) (c : ℕ) (t : Text)
    → is_digit c ≡ false
    → numbers_in (join (codes ", ") (row_placeholders width row_idx col_idx row) ++ c ∷ t)
      ≡ numbers_from (row_idx * width + col_idx) (length row) ++ numbers_in (c ∷ t)
unfolding join row_placeholders numbers_from numbers_in
numbers_in-row width row_idx col_idx [] c t stop = refl
numbers_in-row width row_idx col_idx (v ∷ []) c t stop =
    numbers_in-placeholder (row_idx * width + col_idx + 1) c t stop
numbers_in-row width row_idx col_idx (v ∷ u ∷ row) c t stop =
    ap numbers_in (
      append_assoc (postgres_placeholder (row_idx * width + col_idx + 1))
        (codes ", " ++ join (codes ", ") (row_placeholders width row_idx (col_idx + 1) (u ∷ row)))
        (c ∷ t))
    ∙ numbers_in-placeholder (row_idx * width + col_idx + 1) 44
        (32 ∷ (join (codes ", ") (row_placeholders width row_idx (col_idx + 1) (u ∷ row)) ++ c ∷ t))
        refl
    ∙ ap (λ ns. decimal (row_idx * width + col_idx + 1) ∷ ns)
        (numbers_in-row width row_idx (col_idx + 1) (u ∷ row) c t stop
          ∙ ap (λ i. numbers_from i (suc (length row)) ++ numbers_in (c ∷ t))
              {x = row_idx * width + (col_idx + 1)} {y = row_idx * width + col_idx + 1}
              (omega arith))

-- The numbers of all clauses; every row has the width of the columns.
abbrev pub HasWidth : ℕ → List (List Value) → Type 0
HasWidth width rows = All (λ row. length row ≡ width) rows

numbers_in-clause :
    (width row_idx : ℕ) (row : List Value) (c : ℕ) (t : Text)
    → numbers_in (in_parentheses (row_placeholders width row_idx 0 row) ++ c ∷ t)
      ≡ numbers_from (row_idx * width) (length row) ++ numbers_in (c ∷ t)
unfolding numbers_in
numbers_in-clause width row_idx row c t =
    ap numbers_in
      (append_assoc (join (codes ", ") (row_placeholders width row_idx 0 row)) (codes ")") (c ∷ t))
    ∙ numbers_in-row width row_idx 0 row 41 (c ∷ t) refl
    ∙ ap (λ i. numbers_from i (length row) ++ numbers_in (c ∷ t)) {y = row_idx * width}
        (omega arith)

numbers_from-append :
    (i n m : ℕ) → numbers_from i n ++ numbers_from (i + n) m ≡ numbers_from i (n + m)
unfolding numbers_from
numbers_from-append i zero m =
    ap (λ k. numbers_from k m) {y = i} (omega arith) ∙ ap (numbers_from i) {x = m} (omega arith)
numbers_from-append i (suc n) m =
    ap (λ k. decimal (i + 1) ∷ (numbers_from (i + 1) n ++ numbers_from k m)) {y = i + 1 + n}
      (omega arith)
    ∙ ap (λ ns. decimal (i + 1) ∷ ns) (numbers_from-append (i + 1) n m)
    ∙ ap (numbers_from i) {x = suc (n + m)} (omega arith)

-- The numbers of a row, and of the rows after it.
numbers_from-rows :
    (width row_idx : ℕ) (row : List Value) (rows : List (List Value)) (ns : List Text)
    → length row ≡ width
    → numbers_from (row_idx * width) (length row)
        ++ (numbers_from ((row_idx + 1) * width) (length (all_params rows)) ++ ns)
      ≡ numbers_from (row_idx * width) (length (all_params (row ∷ rows))) ++ ns
unfolding all_params
numbers_from-rows width row_idx row rows ns wide =
    ap
      (λ k.
        numbers_from (row_idx * width) (length row)
        ++ (numbers_from k (length (all_params rows)) ++ ns))
      {y = row_idx * width + length row} (omega (arith, wide))
    ∙ sym (append_assoc (numbers_from (row_idx * width) (length row)) _ ns)
    ∙ ap (λ s. s ++ ns)
        (numbers_from-append (row_idx * width) (length row) (length (all_params rows)))
    ∙ ap (λ n. numbers_from (row_idx * width) n ++ ns) (sym (length-append row (all_params rows)))

numbers_in-values :
    (width row_idx : ℕ) (rows : List (List Value)) (c : ℕ) (t : Text)
    → is_digit c ≡ false
    → HasWidth width rows
    → numbers_in (join (codes ", ") (postgres_values width row_idx rows) ++ c ∷ t)
      ≡ numbers_from (row_idx * width) (length (all_params rows)) ++ numbers_in (c ∷ t)
unfolding join postgres_values all_params numbers_from numbers_in
numbers_in-values width row_idx [] c t stop wide = refl
numbers_in-values width row_idx (row ∷ []) c t stop wide =
    numbers_in-clause width row_idx row c t
    ∙ ap (λ n. numbers_from (row_idx * width) n ++ numbers_in (c ∷ t))
        (ap length (sym (append-nil row)))
numbers_in-values width row_idx (row ∷ row' ∷ rows) c t stop wide =
    ap numbers_in (
      append_assoc (in_parentheses (row_placeholders width row_idx 0 row))
        (codes ", " ++ join (codes ", ") (postgres_values width (row_idx + 1) (row' ∷ rows)))
        (c ∷ t))
    ∙ numbers_in-clause width row_idx row 44
        (32 ∷ (join (codes ", ") (postgres_values width (row_idx + 1) (row' ∷ rows)) ++ c ∷ t))
    ∙ ap (λ ns. numbers_from (row_idx * width) (length row) ++ ns)
        (numbers_in-values width (row_idx + 1) (row' ∷ rows) c t stop wide.1)
    ∙ numbers_from-rows width row_idx row (row' ∷ rows) (numbers_in (c ∷ t)) wide.0

-- The statement numbers its parameters from 1, each once and in order, as many as it carries.
abbrev pub Numbered : Outcome JsError SqlStatement → Type 0
Numbered (returned st) = numbers_in st.sql ≡ numbers_from 0 (length st.params)
Numbered (threw e) = ⊥

numbers_in-insert_text :
    (table ending : Text) (columns : List Text) (rows : List (List Value))
    → lacks b'$' table ≡ true
    → lacks b'$' (join (codes ", ") columns) ≡ true
    → HasWidth (length columns) rows
    → numbers_in
        (Postgres.insert_text table columns (postgres_values (length columns) 0 rows) (10 ∷ ending))
      ≡ numbers_from 0 (length (all_params rows)) ++ numbers_in ending
unfolding Postgres.insert_text numbers_in
numbers_in-insert_text table ending columns rows plain plain' wide =
    numbers_in-skip table _ plain
    ∙ numbers_in-skip (join (codes ", ") columns) _ plain'
    ∙ numbers_in-values (length columns) 0 rows 10 ending refl wide
    ∙ ap (λ i. numbers_from i (length (all_params rows)) ++ numbers_in ending) {y = 0} (omega arith)

-- A bulk insert for PostgreSQL, of the outbox as of the inbox, refers to each of its parameters once
-- and in order: the numbers that a database reads in its text are 1, 2, 3, ... up to how many
-- parameters it carries. Every row has as many values as there are columns, and no column is spelled
-- with a `$`.
pub build_bulk_insert-Numbered :
    (p : BuildBulkInsertParams)
    → lacks b'$' (join (codes ", ") p.columns) ≡ true
    → HasWidth (length p.columns) p.rows
    → Numbered (Postgres.build_bulk_insert p) × Numbered (Postgres.build_inbox_bulk_insert p)
unfolding Postgres.build_bulk_insert Postgres.build_inbox_bulk_insert lacks numbers_in
build_bulk_insert-Numbered p plain wide = (
  numbers_in-insert_text (codes "outbox_events") (codes "      RETURNING id") p.columns p.rows refl
        plain wide
      ∙ append-nil _,
  numbers_in-insert_text (codes "inbox_events")
        (codes "      ON CONFLICT (idempotency_key) DO NOTHING\n      RETURNING id") p.columns
        p.rows refl plain wide
      ∙ append-nil _,
)
