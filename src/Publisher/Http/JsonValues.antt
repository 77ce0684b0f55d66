-- ===== src/Publisher/Http/JsonValues.antt =====
-- What the publisher does with a parsed JSON value: property access, truth and `String`.
use outboxy.Base.{
  Bool, true, false, not, [], ◌++◌, Option, none, some, Text, codes, text_eq, is_empty,
  if◌then◌else◌,
}
use outboxy.Schema.{Json, Items, Entries}

abbrev pub entry_at : Text → Entries → Option Json
entry_at key Entries.end = none
entry_at key (Entries.entry k v rest) = if text_eq k key then some v else entry_at key rest

-- `v[key]` for a key that no prototype has; `undefined` is `none`.
abbrev pub property : Text → Json → Option Json
property key (Json.object entries) = entry_at key entries
property key _ = none

-- A number is its `String`.
abbrev pub is_truthy : Json → Bool
is_truthy Json.null = false
is_truthy (Json.bool b) = b
is_truthy (Json.number n) = not (text_eq n (codes "0"))
is_truthy (Json.string s) = not (is_empty s)
is_truthy (Json.array items) = true
is_truthy (Json.object entries) = true

-- `String(v)`; in an array `null` is the empty text.
abbrev mutual
  pub to_text : Json → Text
  to_text Json.null = codes "null"
  to_text (Json.bool true) = codes "true"
  to_text (Json.bool false) = codes "false"
  to_text (Json.number n) = n
  to_text (Json.string s) = s
  to_text (Json.array items) = items_text items
  to_text (Json.object entries) = codes "[object Object]"

  pub element_text : Json → Text
  element_text Json.null = []
  element_text (Json.bool true) = codes "true"
  element_text (Json.bool false) = codes "false"
  element_text (Json.number n) = n
  element_text (Json.string s) = s
  element_text (Json.array items) = items_text items
  element_text (Json.object entries) = codes "[object Object]"

  pub items_text : Items → Text
  items_text Items.nil = []
  items_text (Items.cons v Items.nil) = element_text v
  items_text (Items.cons v (Items.cons u rest)) =
      element_text v ++ codes "," ++ items_text (Items.cons u rest)
