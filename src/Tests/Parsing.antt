-- ===== src/Tests/Parsing.antt =====
-- The parser of trace records, with a decoder that knows one line.
use expertflow.Base.{
  trace_error, overflow_error, Option, none, some, [], ◌∷◌, length, All, if◌then◌else◌, Result, ok,
  err, ◌≡◌, refl, arith, String, str_eq,
}
use expertflow.Base.Distinct.{elem}
use expertflow.Trace.Event.{RouterTraceEvent}
use expertflow.Tests.Traces.{event}
use expertflow.Trace.Event.{ℤ, Float}
use expertflow.Trace.Json.{Json, obj}
use expertflow.Trace.Schema.{parse_router_event, load_from}
use expertflow.Trace.Schema.Valid.{IsValid, parse_router_event-IsValid}
use expertflow.Trace.Schema.Load.{FailsAt, load_from-IsValid, load_from-err}
use expertflow.Trace.Schema.RoundTrip.{event_json, parse_router_event-event_json}

abbrev sample : RouterTraceEvent
sample = event 5 3 (1 ∷ 2 ∷ [])

no_float : ℤ → Result Float
no_float _ = err overflow_error

loads : String → Option Json
loads line = if str_eq line "sample" then some (obj (event_json sample)) else none

sample-IsValid : IsValid sample
unfolding elem
sample-IsValid = record {
  version = refl;
  request = refl;
  conversation = refl;
  turn = omega arith;
  token = omega arith;
  layer = omega arith;
  experts = omega arith;
  range = omega arith;
  distinct = (refl, (refl, tt));
  weights = tt;
}

decoded : loads "sample" ≡ some (obj (event_json sample))
unfolding loads
decoded = refl

parse_router_event-event_json_example : parse_router_event no_float loads "sample" 9 ≡ ok sample
parse_router_event-event_json_example =
    parse_router_event-event_json no_float loads "sample" 9 sample sample-IsValid decoded

accepted : parse_router_event no_float loads "sample" 9 ≡ ok sample
accepted = parse_router_event-event_json no_float loads "sample" 9 sample sample-IsValid decoded

parse_router_event-IsValid_example : IsValid sample
parse_router_event-IsValid_example = parse_router_event-IsValid no_float loads "sample" 9 accepted

one_line : load_from no_float loads 1 ("sample" ∷ []) ≡ ok (sample ∷ [])
unfolding load_from
one_line =
    rw (parse_router_event-event_json no_float loads "sample" 1 sample sample-IsValid decoded)

load_from-IsValid_example :
    (length (sample ∷ []) ≡ length {A = String} ("sample" ∷ [])) × All IsValid (sample ∷ [])
load_from-IsValid_example = load_from-IsValid no_float loads 1 ("sample" ∷ []) one_line

-- The second line is no JSON: the failure names record 2.
second_line :
    load_from no_float loads 1 ("sample" ∷ "}" ∷ []) ≡ err (trace_error 2 "" "invalid JSON")
unfolding load_from
second_line =
    rw (parse_router_event-event_json no_float loads "sample" 1 sample sample-IsValid decoded)
      (unfold parse_router_event loads in refl)

load_from-err_example :
    FailsAt no_float loads 1 ("sample" ∷ "}" ∷ []) (trace_error 2 "" "invalid JSON")
load_from-err_example =
    load_from-err no_float loads 1 ("sample" ∷ "}" ∷ []) (trace_error 2 "" "invalid JSON")
      second_line
