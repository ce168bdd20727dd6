-- ===== src/Traceparent/RoundTrip.antt =====
-- src/telemetry/traceparent.ts: the parse of a printed traceparent.
use mathlib.Core.List.{append-nil}
use openma_common.Common.{
  ℕ, Bool, true, false, some, [], ◌∷◌, ◌++◌, ◌≡◌, refl, sym, ap, ◌∙◌, subst, arith, if◌then◌else◌,
  length, ◌>>=◌,
}
use openma_common.Common.Units.{
  Units, codes, take, trim, trim_start, trim_end, is_space, same, drop-append,
}
use openma_common.Traceparent.{
  TraceContextIds, format_traceparent, parse_traceparent, zero_trace, zero_span, is_hex, all_hex,
  after, field_of, is_sampled, groups, ids_of,
}

take-append : (p rest : Units) → take (length p) (p ++ rest) ≡ p
take-append [] rest = refl
take-append (c ∷ p) rest = ap (λ t. c ∷ t) (take-append p rest)

-- No unit of the text is white space.
dense : Units → Bool
dense [] = true
dense (c ∷ s) = if is_space c then false else dense s

prefix_dense : dense (codes "00-") ≡ true
unfolding dense is_space
prefix_dense = refl

dash_dense : dense (codes "-") ≡ true
unfolding dense is_space
dash_dense = refl

field_of_own :
    (p rest : Units) → all_hex p ≡ true → field_of (length p) (p ++ rest) ≡ some (p, rest)
unfolding field_of
field_of_own p rest h = rw (take-append p rest, drop-append p rest) (ground (arith, h))

field_of-append :
    (n : ℕ) (p rest : Units)
    → length p ≡ n
    → all_hex p ≡ true
    → field_of n (p ++ rest) ≡ some (p, rest)
field_of-append n p rest l h =
    subst (λ k. field_of k (p ++ rest) ≡ some (p, rest)) l (field_of_own p rest h)

trim_start-dense : (s : Units) → dense s ≡ true → trim_start s ≡ s
unfolding trim_start dense
trim_start-dense [] h = refl
trim_start-dense (c ∷ s) h = ground arith

trim_end-dense : (s : Units) → dense s ≡ true → trim_end s ≡ s
unfolding trim_end dense
trim_end-dense [] h = refl
trim_end-dense (c ∷ s) h = ground (arith, trim_end-dense s)

trim-dense : (s : Units) → dense s ≡ true → trim s ≡ s
unfolding trim
trim-dense s h = ap trim_end (trim_start-dense s h) ∙ trim_end-dense s h

dense-append : (p q : Units) → dense p ≡ true → dense q ≡ true → dense (p ++ q) ≡ true
unfolding dense
dense-append [] q hp hq = hq
dense-append (c ∷ p) q hp hq = ground (arith, dense-append p q)

hex_no_space : (c : ℕ) → is_hex c ≡ true → is_space c ≡ false
unfolding is_hex is_space
hex_no_space c h = ground arith

all_hex-dense : (s : Units) → all_hex s ≡ true → dense s ≡ true
unfolding all_hex dense
all_hex-dense [] h = refl
all_hex-dense (c ∷ s) h = ground (arith, hex_no_space c, all_hex-dense s)

-- The printed text with given flags, and the groups of its match.
printed : Units → Units → Units → Units
printed trace_id span_id flags =
    codes "00-" ++ (trace_id ++ (codes "-" ++ (span_id ++ (codes "-" ++ flags))))

module _ (trace_id span_id flags : Units) (ht : all_hex trace_id ≡ true)
    (hs : all_hex span_id ≡ true) (hf : all_hex flags ≡ true) where
  printed-dense : dense (printed trace_id span_id flags) ≡ true
  unfolding printed
  printed-dense = dense-append (codes "00-") _ prefix_dense (
      dense-append trace_id _ (all_hex-dense trace_id ht) (
        dense-append (codes "-") _ dash_dense (
          dense-append span_id _ (all_hex-dense span_id hs)
            (dense-append (codes "-") flags dash_dense (all_hex-dense flags hf)))))

  groups-printed :
      length trace_id ≡ 32
      → length span_id ≡ 16
      → length flags ≡ 2
      → groups (printed trace_id span_id flags) ≡ some (trace_id, span_id, flags)
  unfolding groups after printed
  groups-printed lt ls lf =
      rw
        (
          field_of-append 32 trace_id (codes "-" ++ (span_id ++ (codes "-" ++ flags))) lt ht,
          field_of-append 16 span_id (codes "-" ++ flags) ls hs,
          field_of_flags,
        )
        refl
    where
      field_of_flags : field_of 2 flags ≡ some (flags, [])
      field_of_flags = ap (field_of 2) (sym (append-nil flags)) ∙ field_of-append 2 flags [] lf hf

  parse-printed :
      length trace_id ≡ 32
      → length span_id ≡ 16
      → length flags ≡ 2
      → same trace_id zero_trace ≡ false
      → same span_id zero_span ≡ false
      → parse_traceparent (printed trace_id span_id flags)
        ≡ some (record { trace_id = trace_id; span_id = span_id; sampled = is_sampled flags })
  unfolding parse_traceparent ids_of
  parse-printed lt ls lf zt zs =
      ap (λ t. groups t >>= ids_of) (trim-dense (printed trace_id span_id flags) printed-dense)
      ∙ rw (groups-printed lt ls lf) (ground (arith, zt, zs))

parse-format_parts :
    (trace_id span_id : Units) (sampled : Bool)
    → length trace_id ≡ 32
    → all_hex trace_id ≡ true
    → same trace_id zero_trace ≡ false
    → length span_id ≡ 16
    → all_hex span_id ≡ true
    → same span_id zero_span ≡ false
    → parse_traceparent
        (format_traceparent (record { trace_id = trace_id; span_id = span_id; sampled = sampled }))
      ≡ some (record { trace_id = trace_id; span_id = span_id; sampled = sampled })
unfolding format_traceparent printed is_sampled all_hex is_hex
parse-format_parts t s true lt ht zt ls hs zs =
    parse-printed t s (codes "01") ht hs refl lt ls refl zt zs
parse-format_parts t s false lt ht zt ls hs zs =
    parse-printed t s (codes "00") ht hs refl lt ls refl zt zs

-- The print of a trace id of 32 and a span id of 16 lower-case hex digits, neither of them zero,
-- with either sampling, parses to just these.
pub parse-format :
    (ids : TraceContextIds)
    → length ids.trace_id ≡ 32
    → all_hex ids.trace_id ≡ true
    → same ids.trace_id zero_trace ≡ false
    → length ids.span_id ≡ 16
    → all_hex ids.span_id ≡ true
    → same ids.span_id zero_span ≡ false
    → parse_traceparent (format_traceparent ids) ≡ some ids
parse-format ids lt ht zt ls hs zs =
    parse-format_parts ids.trace_id ids.span_id ids.sampled lt ht zt ls hs zs
