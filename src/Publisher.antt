-- ===== src/Publisher.antt =====
-- packages/publisher-core/src/types.ts. An `Error` is its message.
pub mod Groups
pub mod Answers
pub mod Http
pub mod Kafka
use outboxy.Base.{ℕ, Bool, List, Option, Text, Map}
use outboxy.Schema.{OutboxEvent}

pub record PublishResult : Type 0 where
  pub success : Bool
  pub error : Option Text
  pub retryable : Bool
  pub duration_ms : Option ℕ

-- What a call of `publish` comes to: the promise resolves to the map, or rejects with an error.
pub data Publication : Type 0 where
  resolved : Map PublishResult → Publication
  rejected : Text → Publication

-- A publisher that the worker is given, with the outside world that answers it.
abbrev pub Publisher : Type 0
Publisher = List OutboxEvent → Publication
