-- ===== src/Sdk/Client/Inserted.antt =====
-- One insert of `publishBatch`, and the whole of it, on a database that adds the rows.
use outboxy.Base.{◌≡◌, List, map, Option, none, some, Text}
use outboxy.Dialect.{Value}
use outboxy.Sdk.{Runtime}
use outboxy.Sdk.Calls.Holds.{Holds}
use outboxy.Sdk.Client.Stored.{with_ids, split_id, AreRowsOf}
use outboxy.Sdk.Events.{ValidatedEvent}

module _ {ℓ} {W : Type ℓ} (r : Runtime W) where
  -- What the rows of a bulk insert are: the values of the events, each after its id if it has one.
  abbrev AreInserted : Option (List Text) → List ValidatedEvent → List (List Value) → Type 0
  AreInserted none events rows = AreRowsOf r events rows
  AreInserted (some ids) events rows =
      (own : List (List Value)) × (map split_id rows ≡ with_ids ids own) × AreRowsOf r events own
