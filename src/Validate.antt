-- ===== src/Validate.antt =====
-- validate.ts: the checks on events and keys before a signature. A regular expression is a function
-- on the code units; the static types stand for the tests of `typeof`.
pub mod Keys
use receipts_sdk.Prelude.{
  ℕ, zero, suc, Bool, true, false, ◌&&◌, ◌||◌, Option, none, some, List, [], ◌∷◌, Text, codes,
  text_eq, includes, every, length, leb, ltb, ◌==◌, if◌then◌else◌, ok, err, guard, ◌>>=◌, ◌>>◌,
}
use receipts_sdk.Errors.{Throws, invalid}
use receipts_sdk.Types.{RawEvent, EventContext, EventPayload}

is_digit : ℕ → Bool
is_digit c = leb b'0' c && leb c b'9'

is_small : ℕ → Bool
is_small c = leb b'a' c && leb c b'z'

is_capital : ℕ → Bool
is_capital c = leb b'A' c && leb c b'Z'

-- [A-Za-z0-9._:-]
unfoldable pub is_id_unit : ℕ → Bool
unfolding is_digit is_small is_capital
is_id_unit c =
    is_small c || is_capital c || is_digit c || c == b'.' || c == b'_' || c == b':' || c == b'-'

unfoldable pub matches_id : ℕ → Text → Bool
matches_id most s = ltb 0 (length s) && leb (length s) most && every is_id_unit s

-- /^[a-z][a-z0-9_]*(\.[a-z][a-z0-9_]*)+$/, with whether a segment starts and whether a dot was seen
unfoldable pub event_type_from : Bool → Bool → Text → Bool
unfolding is_digit is_small
event_type_from true dotted [] = false
event_type_from true dotted (c ∷ s) = is_small c && event_type_from false dotted s
event_type_from false dotted [] = dotted
event_type_from false dotted (c ∷ s) =
    let next = event_type_from true true s in
    let same = event_type_from false dotted s in
    if c == b'.' then next else (is_small c || is_digit c || c == b'_') && same

-- The units of a pattern, in which "d" stands for a digit; what is left of the text.
after : Text → Text → Option Text
unfolding is_digit
after [] s = some s
after (d ∷ pattern) [] = none
after (d ∷ pattern) (c ∷ s) =
    let rest = after pattern s in if (if d == b'd' then is_digit c else d == c) then rest else none

skip_digits : Text → Text
unfolding is_digit
skip_digits [] = []
skip_digits (c ∷ s) = let rest = skip_digits s in if is_digit c then rest else c ∷ s

is_offset : Option Text → Bool
is_offset (some []) = true
is_offset _ = false

-- (Z|[+-]\d{2}:\d{2})$
is_zone : Text → Bool
unfolding after is_offset
is_zone [] = false
is_zone (c ∷ s) =
    if c == b'Z'
    then leb (length s) 0
    else (c == b'+' || c == b'-') && is_offset (after (codes "dd:dd") s)

-- (\.\d+)? before the zone
is_fraction_and_zone : Text → Bool
unfolding is_zone skip_digits is_digit
is_fraction_and_zone [] = false
is_fraction_and_zone (c ∷ []) = is_zone (c ∷ [])
is_fraction_and_zone (c ∷ d ∷ s) =
    if c == b'.' then is_digit d && is_zone (skip_digits s) else is_zone (c ∷ d ∷ s)

is_tail : Option Text → Bool
unfolding is_fraction_and_zone
is_tail none = false
is_tail (some s) = is_fraction_and_zone s

unfoldable pub matches_rfc3339 : Text → Bool
unfolding after is_tail
matches_rfc3339 s = is_tail (after (codes "dddd-dd-ddTdd:dd:dd") s)

unfoldable pub allowed_classifications : List Text
allowed_classifications =
    codes "public"
    ∷ codes "internal"
    ∷ codes "pii"
    ∷ codes "pii_redacted"
    ∷ codes "pci"
    ∷ codes "mnpi"
    ∷ []

unfoldable pub allowed_environments : List Text
allowed_environments = codes "production" ∷ codes "staging" ∷ codes "development" ∷ []

-- An absent value is allowed.
allowed : List Text → Option Text → Bool
allowed values none = true
allowed values (some t) = includes values t

check_context : Option EventContext → Throws (Unit {0})
unfolding allowed
check_context none = ok tt
check_context (some c) =
    guard (allowed allowed_environments c.environment) (invalid (codes "event.context.environment"))

check_payload : Option EventPayload → Throws (Unit {0})
unfolding allowed
check_payload none = ok tt
check_payload (some p) = do
  guard (allowed allowed_classifications p.input_classification)
      (invalid (codes "event.payload.input_classification"))
  guard (allowed allowed_classifications p.output_classification)
      (invalid (codes "event.payload.output_classification"))

unfoldable pub validate_event : RawEvent → Throws (Unit {0})
unfolding check_context check_payload
validate_event e = do
  guard (text_eq e.schema_version (codes "1.0")) (invalid (codes "event.schema_version"))
  guard (matches_id 128 e.tenant_id) (invalid (codes "event.tenant_id"))
  guard (event_type_from true false e.event_type) (invalid (codes "event.event_type"))
  guard (ltb 0 (length e.source_system)) (invalid (codes "event.source_system"))
  guard (matches_id 256 e.event_id) (invalid (codes "event.event_id"))
  guard (matches_rfc3339 e.captured_at) (invalid (codes "event.captured_at"))
  check_context e.context
  check_payload e.payload
