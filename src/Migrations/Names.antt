-- ===== src/Migrations/Names.antt =====
-- packages/migrations/src/runner.ts: the names of the migrations in a directory.
use outboxy.Base.{
  ℕ, ◌-◌, Bool, true, false, ◌&&◌, ◌||◌, List, [], ◌∷◌, map, Text, codes, text_eq, select, ltb, leb,
  ◌==◌, length, take, if◌then◌else◌,
}

abbrev pub is_digit : ℕ → Bool
is_digit c = leb b'0' c && leb c b'9'

abbrev pub is_name_character : ℕ → Bool
is_name_character c = (leb b'a' c && leb c b'z') || c == b'_'

-- `[a-z_]*\.sql$`.
unfoldable pub ends_name : Text → Bool
ends_name [] = false
ends_name (c ∷ s) = if is_name_character c then ends_name s else text_eq (c ∷ s) (codes ".sql")

-- `\d{3}_[a-z_]+\.sql`.
unfoldable pub is_migration_file : Text → Bool
is_migration_file (a ∷ b ∷ c ∷ d ∷ e ∷ s) =
    (is_digit a && is_digit b && is_digit c) && (d == b'_' && is_name_character e && ends_name s)
is_migration_file s = false

-- The order of the code units.
unfoldable pub is_before : Text → Text → Bool
is_before [] t = true
is_before (c ∷ s) [] = false
is_before (c ∷ s) (d ∷ t) = ltb c d || (c == d && is_before s t)

unfoldable pub insert_name : Text → List Text → List Text
insert_name t [] = t ∷ []
insert_name t (x ∷ xs) =
    let rest = insert_name t xs in if is_before t x then t ∷ x ∷ xs else x ∷ rest

unfoldable pub sort_names : List Text → List Text
sort_names [] = []
sort_names (t ∷ ts) = insert_name t (sort_names ts)

-- `f.replace(/\.sql$/, "")` of a name that ends so.
abbrev pub without_extension : Text → Text
without_extension f = take (length f - 4) f

unfoldable pub get_all_migration_names : List Text → List Text
get_all_migration_names directory =
    map without_extension (sort_names (select is_migration_file directory))
