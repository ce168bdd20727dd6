-- ===== src/Traceparent.antt =====
-- src/telemetry/traceparent.ts: the W3C traceparent, printed and parsed. A text is its UTF-16 code units.
pub mod RoundTrip
mod Tests
use openma_common.Common.{
  ℕ, suc, ◌+◌, ◌-◌, ◌*◌, ◌%◌, String, Bool, true, false, not, Option, none, some, List, [], ◌∷◌,
  ◌++◌, if◌then◌else◌, leb, ◌==◌, ◌&&◌, ◌||◌, length, ◌>>=◌,
}
use openma_common.Common.Units.{Units, codes, take, drop, trim, same, is_nil}

pub record TraceContextIds : Type 0 where
  pub trace_id : Units
  pub span_id : Units
  pub sampled : Bool

pub format_traceparent : TraceContextIds → Units
format_traceparent ids =
    codes "00-"
    ++ (ids.trace_id
        ++ (codes "-"
            ++ (ids.span_id ++ (codes "-" ++ (if ids.sampled then codes "01" else codes "00")))))

abbrev pub zero_trace : Units
zero_trace = codes "00000000000000000000000000000000"

abbrev pub zero_span : Units
zero_span = codes "0000000000000000"

-- [0-9a-f]
pub is_hex : ℕ → Bool
is_hex c = (leb 48 c && leb c 57) || (leb 97 c && leb c 102)

pub all_hex : Units → Bool
unfolding is_hex
all_hex [] = true
all_hex (c ∷ s) = let rest = all_hex s in if is_hex c then rest else false

-- The text behind a prefix that it must have, and behind a field of some hex digits.
after : Units → Units → Option Units
after [] s = some s
after (p ∷ ps) [] = none
after (p ∷ ps) (c ∷ s) = let rest = after ps s in if c == p then rest else none

field_of : ℕ → Units → Option (Units × Units)
field_of n s =
    if length (take n s) == n
    then (if all_hex (take n s) then some (take n s, drop n s) else none)
    else none

-- Number.parseInt(flags, 16) & 1
hex_value : ℕ → ℕ
hex_value c = if leb c 57 then c - 48 else c - 87

flags_value : Units → ℕ
unfolding hex_value
flags_value [] = 0
flags_value (c ∷ []) = hex_value c
flags_value (c ∷ d ∷ s) = hex_value c * 16 + hex_value d

is_sampled : Units → Bool
unfolding flags_value
is_sampled flags = flags_value flags % 2 == 1

-- The groups of the match, which must be the whole text.
groups : Units → Option (Units × Units × Units)
unfolding after field_of
groups text = do
  rest ← after (codes "00-") text
  trace ← field_of 32 rest
  rest ← after (codes "-") trace.1
  span ← field_of 16 rest
  rest ← after (codes "-") span.1
  flags ← field_of 2 rest
  if is_nil flags.1 then some (trace.0, span.0, flags.0) else none

ids_of : Units × Units × Units → Option TraceContextIds
unfolding is_sampled
ids_of (trace_id, span_id, flags) =
    if same trace_id zero_trace
    then none
    else if same span_id zero_span
    then none
    else some (record { trace_id = trace_id; span_id = span_id; sampled = is_sampled flags })

pub parse_traceparent : Units → Option TraceContextIds
unfolding groups ids_of
parse_traceparent text = groups (trim text) >>= ids_of
