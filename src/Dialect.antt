-- ===== src/Dialect.antt =====
-- packages/dialect-core/src/dialect.ts: the statements that the SDK runs and the interfaces of the
-- dialects that write them. `Outcome` is what code that may throw comes to.
pub mod Render
pub mod Postgres
pub mod Mysql
pub mod Contract
pub mod Placeholders
pub mod Marks
use outboxy.Base.{ℕ, Bool, List, Option, Text}
use outboxy.Schema.{Json}

-- A JavaScript number: a whole one, `- (n + 1)`, or one that is no integer, by its text.
pub data JsNumber : Type 0 where
  whole : ℕ → JsNumber
  below_zero : ℕ → JsNumber
  not_integer : Text → JsNumber

-- A parameter of a statement. A text that `JSON.stringify` made is the value it was made of.
pub data Value : Type 0 where
  null undefined : Value
  text : Text → Value
  number : JsNumber → Value
  serialised : Json → Value

-- A thrown value: whether it is an `Error`, its `code`, its message.
pub record JsError : Type 0 where
  pub is_error : Bool
  pub code : Option Text
  pub message : Text

pub data Outcome {ℓ κ} (E : Type ℓ) (A : Type κ) : Type (ℓ ⊔ κ) where
  returned : A → Outcome E A
  threw : E → Outcome E A

infixl 5 ◌>>=◌ ◌>>◌
abbrev pub ◌>>=◌ {ℓ κ μ} :
    {E : Type ℓ} {A : Type κ} {B : Type μ} → Outcome E A → (A → Outcome E B) → Outcome E B
returned a >>= f = f a
threw e >>= f = threw e

abbrev pub ◌>>◌ {ℓ κ} : {E : Type ℓ} {B : Type κ} → Outcome E (Unit {0}) → Outcome E B → Outcome E B
returned tt >> b = b
threw e >> b = threw e

pub record SqlStatement : Type 0 where
  pub sql : Text
  pub params : List Value

pub record BuildInsertParams : Type 0 where
  pub columns : List Text
  pub values : List Value
  pub generated_id : Option Text

pub record BuildBulkInsertParams : Type 0 where
  pub columns : List Text
  pub rows : List (List Value)
  pub generated_ids : Option (List Text)

pub data DialectName : Type 0 where
  postgresql mysql : DialectName

pub record SqlDialect : Type 0 where
  pub name : DialectName
  pub placeholder : ℕ → Text
  pub max_parameters : ℕ
  pub supports_returning : Bool
  pub build_insert : BuildInsertParams → Outcome JsError SqlStatement
  pub build_bulk_insert : BuildBulkInsertParams → Outcome JsError SqlStatement

pub record InboxSqlDialect : Type 0 where
  pub name : DialectName
  pub placeholder : ℕ → Text
  pub max_parameters : ℕ
  pub supports_returning : Bool
  pub build_inbox_insert : BuildInsertParams → Outcome JsError SqlStatement
  pub build_inbox_bulk_insert : BuildBulkInsertParams → Outcome JsError SqlStatement
  pub build_mark_failed : Text → Text → SqlStatement
  pub build_find_by_idempotency_keys : List Text → Outcome JsError SqlStatement
  pub build_cleanup_processed_events : JsNumber → SqlStatement
