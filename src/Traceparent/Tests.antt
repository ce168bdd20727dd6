-- ===== src/Traceparent/Tests.antt =====
-- src/telemetry/traceparent.ts: a span that is sampled, and texts that are no traceparent.
use openma_common.Common.{true, none, some, ◌≡◌, refl}
use openma_common.Common.Units.{same, codes, trim}
use openma_common.Traceparent.{all_hex, TraceContextIds, format_traceparent, parse_traceparent}
use openma_common.Traceparent.RoundTrip.{parse-format}

abbrev sampled_span : TraceContextIds
sampled_span = record {
  trace_id = codes "4bf92f3577b34da6a3ce929d0e0e4736";
  span_id = codes "00f067aa0ba902b7";
  sampled = true;
}

zero_trace_refused :
    parse_traceparent (codes "00-00000000000000000000000000000000-00f067aa0ba902b7-01") ≡ none
unfolding parse_traceparent trim all_hex same
zero_trace_refused = refl

upper_case_refused :
    parse_traceparent (codes "00-4BF92F3577B34DA6A3CE929D0E0E4736-00f067aa0ba902b7-01") ≡ none
unfolding parse_traceparent trim all_hex
upper_case_refused = refl

other_flags_sampled :
    parse_traceparent (codes " 00-4bf92f3577b34da6a3ce929d0e0e4736-00f067aa0ba902b7-0f ")
    ≡ some sampled_span
unfolding parse_traceparent trim all_hex same
other_flags_sampled = refl

parse-format_example : parse_traceparent (format_traceparent sampled_span) ≡ some sampled_span
unfolding all_hex same
parse-format_example = parse-format sampled_span refl refl refl refl refl refl
