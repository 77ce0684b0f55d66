-- ===== src/Detection/Urls.antt =====
-- What the detection says of a URL.
use outboxy.Base.{
  ◌≡◌, refl, true, false, ◌||◌, [], ◌∷◌, none, Text, codes, starts_with, includes, to_lower_case,
  ◌==◌, if◌then◌else◌, arith, Bool-cases, inl, inr,
}
use outboxy.Detection.{
  DatabaseType, detected, detect_database_type, can_handle_mysql, can_handle_postgres, adapters,
}

-- No text begins as a URL of both kinds.
starts-apart :
    (u : Text)
    → (starts_with (codes "mysql://") u || starts_with (codes "mysql2://") u) ≡ true
    → (starts_with (codes "postgres://") u || starts_with (codes "postgresql://") u) ≡ false
starts-apart [] h = refl
starts-apart (c ∷ s) h = elim (Bool-cases (b'm' == c)) [
  | inl begins ↦ ground (arith, begins)
  | inr other ↦ ground (arith, other, h)
]

-- With no explicit type, a URL for MySQL is taken for one of PostgreSQL, and called ambiguous, exactly if
-- it has `host=` anywhere in it, in any case.
pub detect-mysql_url :
    (url : Text)
    → can_handle_mysql url ≡ true
    → detect_database_type url none adapters ≡ (
        if includes (codes "host=") (to_lower_case url)
        then detected DatabaseType.postgresql true
        else detected DatabaseType.mysql false)
unfolding detect_database_type can_handle_mysql can_handle_postgres
detect-mysql_url url handled = ground (arith, handled, starts-apart (to_lower_case url) handled)
