-- ===== src/Tests/RelayRuns.antt =====
-- A request to the relay, a message to the shim, and the choice of the queue.
use hpe_com_event_integratio.Base.{
  ℕ, String, Bool, true, false, List, [], ◌∷◌, ◌++◌, Option, none, some, ◌==◌, ◌≡◌, refl, arith,
  if◌then◌else◌,
}
use hpe_com_event_integratio.Base.Dict.{lookup}
use hpe_com_event_integratio.Base.Text.{strip, lower, rstrip_char}
use hpe_com_event_integratio.Python.{
  Result, ok, raised, json_decode_error, runtime_error, object, end,
}
use hpe_com_event_integratio.Http.{Request, compare_digest}
use hpe_com_event_integratio.Core.Secrets.{Host, contents, os_error}
use hpe_com_event_integratio.Bridge.App
use hpe_com_event_integratio.Bridge.Worker.{Setup}
use hpe_com_event_integratio.Relay.App.{Config, Draw, Message, checks, webhook, pass, answer}
use hpe_com_event_integratio.Relay.App.SameGate.{
  gate_of, bridge_config, checks-gate, Enqueues, webhook-Enqueues,
}
use hpe_com_event_integratio.Relay.Backends.{servicebus, Readable, get_publisher}
use hpe_com_event_integratio.Relay.Shim.{
  ReceivedMessage, Broker, ShimState, handle_message, complete, abandon,
}
use hpe_com_event_integratio.Relay.Shim.Acks.{EndsRight, handle_message-EndsRight}
use hpe_com_event_integratio.Tests.Documents.{test_platform}

abbrev config : Config
config = record { com_secret = "s3"; secret_header = "x-secret"; max_body_bytes = 10 }

abbrev request : Request
request = record {
  is_post = true;
  headers = ("x-secret", "s3") ∷ ("content-length", "2") ∷ [];
  body = 123 ∷ 125 ∷ [];
}

abbrev draw : Draw
draw = record { uuid = "u1"; now = 5 }

abbrev publish : Message → List Message → Result (Unit {0}) × List Message
publish m queue = (ok tt, queue ++ m ∷ [])

request_passes : checks config request ≡ pass
unfolding checks lookup hpe_com_event_integratio.Relay.App.check_secret compare_digest
    hpe_com_event_integratio.Base.Text.is_ascii hpe_com_event_integratio.Relay.App.check_length
    hpe_com_event_integratio.Http.is_digit hpe_com_event_integratio.Base.Text.all_chars
    hpe_com_event_integratio.Base.Text.is_latin_digit hpe_com_event_integratio.Http.to_int
    hpe_com_event_integratio.Base.Text.parse_decimal
request_passes = refl

checks-gate_example :
    App.gate (bridge_config config App.spool) request ≡ gate_of request (checks config request)
checks-gate_example = checks-gate config App.spool request

webhook-Enqueues_example :
    Enqueues publish config request draw [] (webhook publish config request draw [])
webhook-Enqueues_example = webhook-Enqueues publish config request draw []

abbrev host : Host
host = record {
  env = λ n.
      if n == "SERVICE_BUS_CONNECTION_FILE"
      then some "/run/secrets/bus"
      else if n == "QUEUE_NAME"
      then some "com-events"
      else none;
  read = λ path. if path == "/run/secrets/bus" then contents "Endpoint=sb://x\n" else os_error;
}

host_chooses : get_publisher host ≡ ok servicebus
unfolding get_publisher lower strip
host_chooses = refl

host_reads : Readable host "SERVICE_BUS_CONNECTION"
host_reads h = ("Endpoint=sb://x\n", refl)

abbrev garbage_setup : Setup
garbage_setup = record {
  loads = λ body. raised json_decode_error;
  platform = λ now. test_platform;
  adapters = [];
  enrichers = [];
  ttl = 3600;
  retry_seconds = 30;
  retry_cap = 600;
  poll_seconds = 1;
}

abbrev message : ReceivedMessage
message = record { body = 1 ∷ []; properties = []; handle = 7 }

abbrev shim_state : ShimState
shim_state = record { station = record { clock = 0; calls = 0; seen = []; log = [] }; acks = [] }

-- A payload without events of its own, and a queue that has lost the lock of the message.
abbrev empty_setup : Setup
empty_setup = record garbage_setup { loads = λ body. ok (object end) }

abbrev lost_lock : Broker
lost_lock complete msg = raised runtime_error
lost_lock _ msg = ok tt

lost_lock_run :
    (handle_message lost_lock empty_setup message shim_state).1.acks
    ≡ (7, abandon) ∷ (7, complete) ∷ []
unfolding handle_message hpe_com_event_integratio.Relay.Shim.parsed_message
    hpe_com_event_integratio.Relay.Shim.or_abandon hpe_com_event_integratio.Relay.Shim.try_message
    hpe_com_event_integratio.Core.Normalize.normalize hpe_com_event_integratio.Python.get_or
    hpe_com_event_integratio.Base.Text.ends_with lower hpe_com_event_integratio.Python.str
    hpe_com_event_integratio.Core.Normalize.Generic.normalize_generic
    hpe_com_event_integratio.Python.get_dict hpe_com_event_integratio.Python.get
    hpe_com_event_integratio.Core.Normalize.AssetId.split_asset_id
    hpe_com_event_integratio.Core.Normalize.Severity.map_health_severity
    hpe_com_event_integratio.Python.as_text hpe_com_event_integratio.Relay.Shim.complete_if
    hpe_com_event_integratio.Relay.Shim.shim_delivery
    hpe_com_event_integratio.Core.Deliver.deliver_events
    hpe_com_event_integratio.Core.Deliver.collect_failures
    hpe_com_event_integratio.Core.Enrich.enrich_events hpe_com_event_integratio.Core.Deliver.deliver
    hpe_com_event_integratio.Core.Deliver.deliver_each
    hpe_com_event_integratio.Core.Enrich.run_enrichers hpe_com_event_integratio.Python.find
    hpe_com_event_integratio.Core.Normalize.dispatch
    hpe_com_event_integratio.Core.Normalize.Severity.health_table
lost_lock_run = refl

handle_message-EndsRight_example :
    EndsRight lost_lock empty_setup message shim_state
      (handle_message lost_lock empty_setup message shim_state)
handle_message-EndsRight_example = handle_message-EndsRight lost_lock empty_setup message shim_state
