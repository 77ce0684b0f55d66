-- ===== src/Publisher/Kafka/Topics.antt =====
-- packages/publisher-kafka/src: topic-utils.ts, partition-utils.ts and error-classification.ts.
use outboxy.Base.{
  ℕ, ◌≡◌, ◌↔◌, refl, Bool, true, false, not, ◌&&◌, ◌||◌, List, [], ◌∷◌, ◌++◌, Option, none, some,
  Text, codes, text_eq, text_eq_iff, starts_with, includes, to_lower_case, drop, length, is_empty,
  ltb, leb, ◌==◌, if◌then◌else◌, arith,
}

-- `url.replace` takes out the first occurrence, which is the prefix.
unfoldable pub extract_topic_from_url : Text → Text
extract_topic_from_url url = if starts_with (codes "kafka://") url then drop 8 url else url

-- White space of `trim`: the `WhiteSpace` and `LineTerminator` code units of JavaScript.
unfoldable pub is_white : ℕ → Bool
is_white c =
    (leb 9 c && leb c 13)
    || c == 32
    || c == 0xa0
    || c == 0x1680
    || (leb 0x2000 c && leb c 0x200a)
    || c == 0x2028
    || c == 0x2029
    || c == 0x202f
    || c == 0x205f
    || c == 0x3000
    || c == 0xfeff

-- `s.trim().length === 0`.
unfoldable pub is_blank : Text → Bool
unfolding is_white
is_blank [] = true
is_blank (c ∷ s) = is_white c && is_blank s

-- `[a-zA-Z0-9._-]`.
unfoldable pub is_topic_unit : ℕ → Bool
is_topic_unit c =
    (leb b'a' c && leb c b'z')
    || (leb b'A' c && leb c b'Z')
    || (leb b'0' c && leb c b'9')
    || c == b'.'
    || c == b'_'
    || c == b'-'

unfoldable pub all_topic_units : Text → Bool
unfolding is_topic_unit
all_topic_units [] = true
all_topic_units (c ∷ s) = is_topic_unit c && all_topic_units s

-- `/^[a-zA-Z0-9._-]+$/.test(topic)`.
abbrev pub fits_pattern : Text → Bool
fits_pattern s = not (is_empty s) && all_topic_units s

unfoldable pub is_valid_topic_name : Text → Bool
unfolding is_blank all_topic_units
is_valid_topic_name topic =
    if is_empty topic || is_blank topic
    then false
    else if ltb 249 (length topic) || ltb (length topic) 1
    then false
    else if starts_with (codes ".") topic || starts_with (codes "_") topic
    then false
    else if not (fits_pattern topic)
    then false
    else true

-- `null` and `undefined` are `none`.
unfoldable pub generate_partition_key : Option Text → Option Text
generate_partition_key none = none
generate_partition_key (some aggregate_id) =
    if is_empty aggregate_id then none else some aggregate_id

unfoldable pub is_valid_partition_key : Option Text → Bool
is_valid_partition_key none = true
is_valid_partition_key (some key) = if is_blank key then false else true

abbrev pub same_key : Option Text → Option Text → Bool
same_key none none = true
same_key none (some k) = false
same_key (some k) none = false
same_key (some j) (some k) = text_eq j k

unfoldable pub is_same_partition : Option Text → Option Text → Bool
unfolding generate_partition_key
is_same_partition a b = same_key (generate_partition_key a) (generate_partition_key b)

abbrev pub non_retryable_patterns : List Text
non_retryable_patterns =
    codes "unknown topic"
    ∷ codes "invalid topic"
    ∷ codes "authorization failed"
    ∷ codes "authentication failed"
    ∷ codes "invalid message"
    ∷ codes "topic marked for deletion"
    ∷ codes "unsupported version"
    ∷ []

abbrev pub some_includes : List Text → Text → Bool
some_includes [] message = false
some_includes (p ∷ ps) message = includes p message || some_includes ps message

-- A thrown value that is no `Error` is `none`.
unfoldable pub is_retryable_kafka_error : Option Text → Bool
is_retryable_kafka_error none = false
is_retryable_kafka_error (some message) =
    not (some_includes non_retryable_patterns (to_lower_case message))

-- A topic is found again behind the scheme.
pub extract_topic_from_url-scheme :
    (topic : Text) → extract_topic_from_url (codes "kafka://" ++ topic) ≡ topic
unfolding extract_topic_from_url
extract_topic_from_url-scheme topic = refl

same_key_iff : (a b : Option Text) → (same_key a b ≡ true) ↔ (a ≡ b)
same_key_iff none none = ground arith
same_key_iff none (some k) = ground arith
same_key_iff (some k) none = ground arith
same_key_iff (some j) (some k) = ground (arith, text_eq_iff j k)

-- Two aggregates are said to share a partition exactly when their messages carry the same key.
pub is_same_partition_iff :
    (a b : Option Text)
    → (is_same_partition a b ≡ true) ↔ (generate_partition_key a ≡ generate_partition_key b)
unfolding is_same_partition
is_same_partition_iff a b = same_key_iff (generate_partition_key a) (generate_partition_key b)

topic_unit_not_white : (c : ℕ) → is_topic_unit c ≡ true → is_white c ≡ false
unfolding is_topic_unit is_white
topic_unit_not_white c unit = ground arith

-- The test for white space refuses no name that the pattern accepts.
pub fits_pattern-is_blank : (s : Text) → fits_pattern s ≡ true → is_blank s ≡ false
unfolding is_blank all_topic_units
fits_pattern-is_blank [] fits = cc
fits_pattern-is_blank (c ∷ s) fits = ground (arith, topic_unit_not_white c)
