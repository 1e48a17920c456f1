-- ===== src/Session/Parse/Tests.antt =====
-- A client's report, and what the parser refuses.
use pair_dock.Prelude.{none, ◌≡◌, refl, ok, err}
use pair_dock.Prelude.Decimal.{pos}
use pair_dock.Session.Machine.{done}
use pair_dock.Session.Parse.{
  Json, null, number, text, object, no_fields, field, get_field, type_required, payload_required,
  exit_code_required, parse_done, parse_payload, parse_session_agent_event,
}
use pair_dock.Session.Parse.RoundTrip.{IsPlain, encode, parse-IsPlain}

abbrev report : Json → Json
report code = object (
    field "type" (text "agent.done") (
      field "payload"
        (object (field "exitCode" code (field "resumeStatus" (text "READY") no_fields))) no_fields))

parses :
    (parse_session_agent_event (report (number (pos 0))) ≡ ok (done (pos 0) none none))
    × (parse_session_agent_event (report null) ≡ err exit_code_required)
    × (parse_session_agent_event null ≡ err type_required)
    × (parse_session_agent_event (object no_fields) ≡ err payload_required)
unfolding parse_session_agent_event parse_payload parse_done get_field
parses = (refl, refl, refl, refl)

parse-IsPlain_example :
    ((value : Json)
      → parse_session_agent_event value ≡ ok (done (pos 0) none none)
      → IsPlain (done (pos 0) none none))
    × (IsPlain (done (pos 0) none none)
        → parse_session_agent_event (encode (done (pos 0) none none)) ≡ ok (done (pos 0) none none))
parse-IsPlain_example = parse-IsPlain (done (pos 0) none none)
