-- ===== src/Sdk/Client/Stored.antt =====
-- The rows that the statements of `publishBatch` leave in a database, and the ids that it answers with.
use mathlib.Core.List.{append_assoc, append-nil}
use outboxy.Base.{
  ◌≡◌, refl, sym, ap, ◌∙◌, Bool, true, false, List, [], ◌∷◌, ◌++◌, map, Text, length, arith,
  length-append,
}
use outboxy.Dialect.{Value, JsError, Outcome, returned, threw, BuildBulkInsertParams, SqlStatement}
use outboxy.Dialect.Contract.{PassesIds}
use outboxy.Dialect.Placeholders.{HasWidth}
use outboxy.Sdk.{ReturnedRow, Runtime}
use outboxy.Sdk.Chunks.{Answer}
use outboxy.Sdk.Chunks.Lists.{concat}
use outboxy.Sdk.Chunks.Termination.{in_turn, and_then, with_results}
use outboxy.Sdk.Client.{base_values}
use outboxy.Sdk.Client.Limits.{width_of}
use outboxy.Sdk.Events.{OutboxyClient, ValidatedEvent}

-- A row of the table of events: its id, and the other values in the order of the columns.
abbrev pub StoredRow : Type 0
StoredRow = Text × List Value

abbrev pub with_ids : List Text → List (List Value) → List StoredRow
with_ids (id ∷ ids) (row ∷ rows) = (id, row) ∷ with_ids ids rows
with_ids _ _ = []

-- A row whose first value is its id.
abbrev pub split_id : List Value → StoredRow
split_id (Value.text id ∷ row) = (id, row)
split_id _ = ([], [])

with_ids-append :
    (ids ids' : List Text) (rows rows' : List (List Value))
    → length ids ≡ length rows
    → with_ids ids rows ++ with_ids ids' rows' ≡ with_ids (ids ++ ids') (rows ++ rows')
with_ids-append [] ids' [] rows' same = refl
with_ids-append [] ids' (row ∷ rows) rows' same = absurd (omega arith)
with_ids-append (id ∷ ids) ids' [] rows' same = absurd (omega arith)
with_ids-append (id ∷ ids) ids' (row ∷ rows) rows' same =
    ap (λ t. (id, row) ∷ t) (with_ids-append ids ids' rows rows' (omega arith))

module _ {ℓ} {W : Type ℓ} (r : Runtime W) where
  -- Each row has the values of its event.
  abbrev pub AreRowsOf : List ValidatedEvent → List (List Value) → Type 0
  AreRowsOf [] [] = Unit
  AreRowsOf (e ∷ events) (row ∷ rows) = (base_values r e ≡ returned row) × AreRowsOf events rows
  AreRowsOf _ _ = ⊥

  length-AreRowsOf :
      (events : List ValidatedEvent) (rows : List (List Value))
      → AreRowsOf events rows
      → length rows ≡ length events
  length-AreRowsOf [] [] h = refl
  length-AreRowsOf [] (row ∷ rows) h = absurd h
  length-AreRowsOf (e ∷ events) [] h = absurd h
  length-AreRowsOf (e ∷ events) (row ∷ rows) h = omega (arith, length-AreRowsOf events rows h.1)

  AreRowsOf-append :
      (es es' : List ValidatedEvent) (rows rows' : List (List Value))
      → AreRowsOf es rows
      → AreRowsOf es' rows'
      → AreRowsOf (es ++ es') (rows ++ rows')
  AreRowsOf-append [] es' [] rows' h h' = h'
  AreRowsOf-append [] es' (row ∷ rows) rows' h h' = absurd h
  AreRowsOf-append (e ∷ es) es' [] rows' h h' = absurd h
  AreRowsOf-append (e ∷ es) es' (row ∷ rows) rows' h h' =
      (h.0, AreRowsOf-append es es' rows rows' h.1 h')

module _ {ℓ} {W : Type ℓ} (r : Runtime W) (rows_of : W → List StoredRow) where
  -- A bulk insert that the database refuses leaves the table, and any other adds its rows at the end. A
  -- database that returns the ids gives one to each row, in order; else the rows have their own.
  abbrev pub Adds : Bool → List (List Value) → W → W × Outcome JsError (List ReturnedRow) → Type 0
  Adds returning rows w (w', threw e) = rows_of w' ≡ rows_of w
  Adds true rows w (w', returned replied) =
      (rows_of w' ≡ rows_of w ++ with_ids (map (λ row. row.id) replied) rows)
      × (length replied ≡ length rows)
  Adds false rows w (w', returned replied) = rows_of w' ≡ rows_of w ++ map split_id rows

  -- The database does so with each bulk insert of the client, and drawing an id leaves the table.
  pub record IsDatabase (c : OutboxyClient) : Type ℓ where
    pub on_draw : (w : W) → rows_of (r.random_uuid w).0 ≡ rows_of w
    pub on_insert :
        (p : BuildBulkInsertParams) (st : SqlStatement) (w : W)
        → HasWidth (width_of c.dialect.supports_returning) p.rows
        → PassesIds c.dialect.supports_returning p.generated_ids (length p.rows)
        → c.dialect.build_bulk_insert p ≡ returned st
        → Adds c.dialect.supports_returning p.rows w (r.query st.sql st.params w)

  -- Between two worlds, the rows of some events were added, in order, under some ids.
  abbrev pub Grows : W → W → List ValidatedEvent → List Text → Type 0
  Grows w w' events ids =
      (rows : List (List Value)) × (rows_of w' ≡ rows_of w ++ with_ids ids rows)
      × (length ids ≡ length events)
      × AreRowsOf r events rows

  -- A call that returns has added the rows of all its events and answers with their ids; one that throws
  -- has added those of the first events.
  abbrev pub Answers : W → List ValidatedEvent → Answer W Text → Type 0
  Answers w events (w', returned ids) = Grows w w' events ids
  Answers w events (w', threw f) =
      (done : List ValidatedEvent) × (left : List ValidatedEvent) × (ids : List Text) × (done
          ++ left
        ≡ events)
      × Grows w w' done ids

  pub Grows-nil : (w w' : W) → rows_of w' ≡ rows_of w → Grows w w' [] []
  Grows-nil w w' same = ([], same ∙ sym (append-nil _), refl, tt)

  Grows-append :
      (w w1 w2 : W) (es es' : List ValidatedEvent) (ids ids' : List Text)
      → Grows w w1 es ids
      → Grows w1 w2 es' ids'
      → Grows w w2 (es ++ es') (ids ++ ids')
  Grows-append w w1 w2 es es' ids ids' (rows, grown, same, are) (rows', grown', same', are') = (
    rows ++ rows',
    grown'
        ∙ ap (λ t. t ++ with_ids ids' rows') grown
        ∙ append_assoc (rows_of w) (with_ids ids rows) (with_ids ids' rows')
        ∙ ap (λ t. rows_of w ++ t)
            (with_ids-append ids ids' rows rows'
              (omega (arith, same, length-AreRowsOf r es rows are))),
    omega (arith, length-append ids ids', length-append es es', same, same'),
    AreRowsOf-append r es es' rows rows' are are',
  )

  with_results-Answers :
      (w w1 : W) (es es' : List ValidatedEvent) (ids : List Text) (a : Answer W Text)
      → Grows w w1 es ids
      → Answers w1 es' a
      → Answers w (es ++ es') (with_results ids a)
  with_results-Answers w w1 es es' ids (w2, returned ids') grown h =
      Grows-append w w1 w2 es es' ids ids' grown h
  with_results-Answers w w1 es es' ids (w2, threw f) grown (done, left, ids', split, h) = (
    es ++ done,
    left,
    ids ++ ids',
    append_assoc es done left ∙ ap (λ t. es ++ t) split,
    Grows-append w w1 w2 es done ids ids' grown h,
  )

  and_then-Answers :
      (w : W) (es es' : List ValidatedEvent) (a : Answer W Text) (next : W → Answer W Text)
      → Answers w es a
      → ((w' : W) → Answers w' es' (next w'))
      → Answers w (es ++ es') (and_then a next)
  and_then-Answers w es es' (w1, threw f) next (done, left, ids, split, h) k =
      (done, left ++ es', ids, sym (append_assoc done left es') ∙ ap (λ t. t ++ es') split, h)
  and_then-Answers w es es' (w1, returned ids) next h k =
      with_results-Answers w w1 es es' ids (next w1) h (k w1)

  -- Inserts one after another.
  pub in_turn-Answers :
      (insert : List ValidatedEvent → W → Answer W Text)
      → ((es : List ValidatedEvent) (w : W) → Answers w es (insert es w))
      → (cs : List (List ValidatedEvent)) (w : W) → Answers w (concat cs) (in_turn insert cs w)
  unfolding in_turn
  in_turn-Answers insert answers [] w = Grows-nil w w refl
  in_turn-Answers insert answers (c ∷ cs) w =
      and_then-Answers w c (concat cs) (insert c w) (in_turn insert cs) (answers c w)
        (in_turn-Answers insert answers cs)
