-- ===== src/Dialect/Render.antt =====
-- The texts that both dialects put together: numbers, `join`, and the `VALUES` clauses of a bulk
-- insert.
use outboxy.Base.{
  ℕ, zero, suc, ◌+◌, ◌*◌, ◌/◌, ◌%◌, List, [], ◌∷◌, ◌++◌, map, none, Text, codes, ltb, if◌then◌else◌,
  true,
}
use outboxy.Dialect.{Value, JsError}

-- `String(n)`: the quotient by ten is smaller, so `n + 1` rounds are enough.
abbrev pub decimal_loop : ℕ → ℕ → Text
decimal_loop zero n = []
decimal_loop (suc fuel) n =
    let front = decimal_loop fuel (n / 10) in
    if ltb n 10 then (48 + n) ∷ [] else front ++ (48 + n % 10) ∷ []

unfoldable pub decimal : ℕ → Text
decimal n = decimal_loop (n + 1) n

-- `parts.join(separator)`.
unfoldable pub join : Text → List Text → Text
join separator [] = []
join separator (p ∷ []) = p
join separator (p ∷ q ∷ parts) = p ++ (separator ++ join separator (q ∷ parts))

unfoldable pub postgres_placeholder : ℕ → Text
postgres_placeholder index = b'$' ∷ decimal index

unfoldable pub mysql_placeholder : ℕ → Text
mysql_placeholder index = b'?' ∷ []

-- `columns.map((_, i) => placeholder(i + 1))`, from the index `i`.
unfoldable pub column_placeholders {ℓ} : {A : Type ℓ} → (ℕ → Text) → ℕ → List A → List Text
column_placeholders placeholder i [] = []
column_placeholders placeholder i (c ∷ columns) =
    placeholder (i + 1) ∷ column_placeholders placeholder (i + 1) columns

-- The inner loop of the bulk insert for PostgreSQL.
unfoldable pub row_placeholders : (width row_idx col_idx : ℕ) → List Value → List Text
row_placeholders width row_idx col_idx [] = []
row_placeholders width row_idx col_idx (v ∷ row) =
    postgres_placeholder (row_idx * width + col_idx + 1)
    ∷ row_placeholders width row_idx (col_idx + 1) row

abbrev pub in_parentheses : List Text → Text
in_parentheses parts = codes "(" ++ (join (codes ", ") parts ++ codes ")")

-- The outer loop.
unfoldable pub postgres_values : (width row_idx : ℕ) → List (List Value) → List Text
postgres_values width row_idx [] = []
postgres_values width row_idx (row ∷ rows) =
    in_parentheses (row_placeholders width row_idx 0 row) ∷ postgres_values width (row_idx + 1) rows

-- The loop of the bulk insert for MySQL.
unfoldable pub mysql_values : List (List Value) → List Text
mysql_values [] = []
mysql_values (row ∷ rows) = in_parentheses (map (λ v. codes "?") row) ∷ mysql_values rows

-- `allParams`.
unfoldable pub all_params : List (List Value) → List Value
all_params [] = []
all_params (row ∷ rows) = row ++ all_params rows

-- `new Error(message)`.
abbrev pub plain_error : Text → JsError
plain_error message = record { is_error = true; code = none; message = message }
