-- ===== src/Detection.antt =====
-- packages/db-adapter-core/src/adapter-detection.ts, with `canHandle` of both adapters' index.ts.
pub mod Urls
use outboxy.Base.{
  Bool, true, false, not, ◌&&◌, ◌||◌, [], ◌∷◌, ◌++◌, Option, none, some, Text, codes, starts_with,
  includes, to_lower_case, ◌==◌, if◌then◌else◌,
}

pub data DatabaseType : Type 0 where
  mysql postgresql : DatabaseType

pub data DetectionResult : Type 0 where
  detected : (type : DatabaseType) (ambiguous : Bool) → DetectionResult
  unsupported : (error : Text) → DetectionResult

pub record DetectorMap : Type 0 where
  pub mysql : Text → Bool
  pub postgres : Text → Bool

-- What is left of a text after `[^:@]*@`, if it begins so.
abbrev pub after_at : Text → Option Text
after_at [] = none
after_at (c ∷ s) =
    let rest = after_at s in if c == b'@' then some s else if c == b':' then none else rest

-- `[^:@]+@`.
abbrev pub after_password : Text → Option Text
after_password [] = none
after_password (c ∷ s) = if c == b'@' then none else if c == b':' then none else after_at s

-- `replace(/:[^:@]+@/, ":***@")`.
unfoldable pub mask : Text → Text
mask [] = []
mask (c ∷ s) =
    let rest = mask s in
    if c == b':'
    then elim (after_password s) [ none ↦ c ∷ rest | some left ↦ codes ":***@" ++ left ]
    else c ∷ rest

unfoldable pub detect_database_type : Text → Option DatabaseType → DetectorMap → DetectionResult
detect_database_type url (some explicit) d = detected explicit false
detect_database_type url none d =
    if not (d.mysql url) && not (d.postgres url)
    then unsupported (
        (codes "Unsupported database type. URL: " ++ mask url)
        ++ codes ". Supported: mysql://, mysql2://, postgres://, postgresql://")
    else if d.mysql url && d.postgres url
    then detected DatabaseType.postgresql true
    else detected (if d.mysql url then DatabaseType.mysql else DatabaseType.postgresql) false

abbrev pub is_detection_success : DetectionResult → Bool
is_detection_success (detected type ambiguous) = true
is_detection_success (unsupported error) = false

-- `canHandle` of the adapter for PostgreSQL.
unfoldable pub can_handle_postgres : Text → Bool
can_handle_postgres s =
    let url = to_lower_case s in
    starts_with (codes "postgres://") url
    || starts_with (codes "postgresql://") url
    || includes (codes "host=") url

-- `canHandle` of the adapter for MySQL.
unfoldable pub can_handle_mysql : Text → Bool
can_handle_mysql s =
    let url = to_lower_case s in
    starts_with (codes "mysql://") url || starts_with (codes "mysql2://") url

abbrev pub adapters : DetectorMap
adapters = record { mysql = can_handle_mysql; postgres = can_handle_postgres }
