-- ===== src/Tests/BridgeRuns.antt =====
-- A request to the bridge, a spool with both lanes in use, and rounds of the worker.
use hpe_com_event_integratio.Base.{
  ℕ, ◌+◌, ◌*◌, ◌≤◌, ◌<◌, min, String, Bool, true, false, List, [], ◌∷◌, ◌++◌, Option, none, some,
  ◌≡◌, refl, arith, All, ◌||◌, if◌then◌else◌,
}
use hpe_com_event_integratio.Base.Dict.{lookup}
use hpe_com_event_integratio.Python.{Json, null, object, end, Result, ok, raised, json_decode_error}
use hpe_com_event_integratio.Http.{Request}
use hpe_com_event_integratio.Core.Event.{CanonicalEvent}
use hpe_com_event_integratio.Core.Deliver.{TargetAdapter}
use hpe_com_event_integratio.Bridge.Spool.{
  Row, SpoolStore, lane_bytes, budget, claim_due, delete, reschedule,
}
use hpe_com_event_integratio.Bridge.Spool.Sound.{
  IsSound, Call, puts, deletes, reschedules, perform_all, perform_all-IsSound,
}
use hpe_com_event_integratio.Bridge.Spool.Journal.{Run, view, perform_all-Run}
use hpe_com_event_integratio.Bridge.Spool.Rows.{has_row, perform_all-has_row}
use hpe_com_event_integratio.Bridge.Worker.{Setup, BridgeState, retry_delay, read_row, worker_round}
use hpe_com_event_integratio.Bridge.Worker.Backoff.{retry_delay_doubles}
use hpe_com_event_integratio.Bridge.Worker.Fate.{
  MayGo, worker_round-loses_nothing, worker_round-drains, worker_round-keeps_non_object,
}
use hpe_com_event_integratio.Bridge.App.{Config, spool, accept_to_spool, webhook}
use hpe_com_event_integratio.Bridge.App.Webhook.{
  IsAuthentic, webhook-accepts-IsAuthentic, Spools, webhook-Spools, accept_to_spool_lanes, has_room,
  with_row,
}
use hpe_com_event_integratio.Tests.Documents.{test_platform, events_or_none}

abbrev answering : TargetAdapter
answering = record {
  name = "slack";
  forward = λ calls event. record { outcome = ok tt; elapsed = 1 };
}

-- The empty body does not decode, a body of one byte is `null`, and any other is `{}`.
abbrev loads : List ℕ → Result Json
loads [] = raised json_decode_error
loads (b ∷ []) = ok null
loads (b ∷ c ∷ bs) = ok (object end)

abbrev setup : Setup
setup = record {
  loads = loads;
  platform = λ now. test_platform;
  adapters = answering ∷ [];
  enrichers = [];
  ttl = 3600;
  retry_seconds = 30;
  retry_cap = 600;
  poll_seconds = 1;
}

abbrev row : ℕ → List ℕ → Row
row id body = record {
  id = id;
  body = body;
  properties = [];
  enqueued_at = 0;
  attempts = 0;
  next_attempt = 0;
  enrich = true;
}

abbrev store : List Row → SpoolStore
store rows = record { max_bytes = 4; overflow_max_bytes = 8; rows = rows; seq = 2 }

abbrev state : List Row → BridgeState
state rows = record {
  spool = store rows;
  station = record { clock = 100; calls = 0; seen = []; log = [] };
}

abbrev two_rows : List Row
two_rows = row 1 [] ∷ row 2 (123 ∷ 125 ∷ []) ∷ []

two_rows_fit : (lane : Bool) → lane_bytes lane two_rows ≤ budget lane (store two_rows)
unfolding lane_bytes
two_rows_fit true = omega arith
two_rows_fit false = omega arith

two_rows-IsSound : IsSound (store two_rows)
two_rows-IsSound = record { ordered = omega arith; in_budget = two_rows_fit }

abbrev calls : List Call
calls =
    puts true 5 (1 ∷ 2 ∷ 3 ∷ []) []
    ∷ deletes 1
    ∷ reschedules 2 1 130
    ∷ puts false 6 (7 ∷ []) []
    ∷ []

perform_all-IsSound_example : IsSound (perform_all calls (store two_rows))
perform_all-IsSound_example = perform_all-IsSound calls (store two_rows) two_rows-IsSound

perform_all-Run_example :
    Run (view (store two_rows)) (view (perform_all calls (store two_rows))) calls
perform_all-Run_example = perform_all-Run calls (store two_rows) two_rows-IsSound

second_is_there : has_row 2 two_rows ≡ true
unfolding has_row
second_is_there = refl

perform_all-has_row_example : has_row 2 (perform_all calls (store two_rows)).rows ≡ true
perform_all-has_row_example =
    perform_all-has_row 2 calls (store two_rows) (λ same. absurd (omega arith), tt) second_is_there

first_is_there : has_row 1 two_rows ≡ true
unfolding has_row
first_is_there = refl

first_goes : has_row 1 (worker_round setup (state two_rows)).spool.rows ≡ false
unfolding worker_round has_row claim_due hpe_com_event_integratio.Bridge.Worker.process_row
    hpe_com_event_integratio.Bridge.Worker.settle_row hpe_com_event_integratio.Bridge.Worker.attempt
    read_row delete
first_goes = refl

worker_round-loses_nothing_example :
    (r : Row) × (claim_due 100 (store two_rows) ≡ some r)
    × (r.id ≡ 1)
    × MayGo setup r (state two_rows)
worker_round-loses_nothing_example =
    worker_round-loses_nothing setup (state two_rows) 1 first_is_there first_goes

abbrev object_row : Row
object_row = row 1 (123 ∷ 125 ∷ [])

abbrev object_events : List CanonicalEvent
object_events = events_or_none (read_row setup 100 object_row.body)

object_claimed : claim_due 100 (store (object_row ∷ [])) ≡ some object_row
unfolding claim_due
object_claimed = refl

object_reads : read_row setup 100 object_row.body ≡ ok object_events
unfolding read_row hpe_com_event_integratio.Core.Normalize.normalize
    hpe_com_event_integratio.Python.get_or hpe_com_event_integratio.Base.Text.ends_with
    hpe_com_event_integratio.Base.Text.lower hpe_com_event_integratio.Python.str
    hpe_com_event_integratio.Core.Normalize.Generic.normalize_generic
    hpe_com_event_integratio.Python.get_dict hpe_com_event_integratio.Python.get
    hpe_com_event_integratio.Core.Normalize.AssetId.split_asset_id
    hpe_com_event_integratio.Core.Normalize.Severity.map_health_severity
    hpe_com_event_integratio.Python.as_text
object_reads = refl

worker_round-drains_example :
    (worker_round setup (state (object_row ∷ []))).spool.rows
    ≡ (delete 1 (store (object_row ∷ []))).rows
worker_round-drains_example =
    worker_round-drains setup (state (object_row ∷ [])) object_row object_events object_claimed
      object_reads ((λ calls e. refl), tt)

abbrev null_row : Row
null_row = row 1 (1 ∷ [])

null_claimed : claim_due 100 (store (null_row ∷ [])) ≡ some null_row
unfolding claim_due
null_claimed = refl

worker_round-keeps_non_object_example :
    worker_round setup (state (null_row ∷ [])) ≡ record (state (null_row ∷ [])) {
      spool = reschedule 1 1 (100 + retry_delay setup 1) (store (null_row ∷ []));
    }
worker_round-keeps_non_object_example =
    worker_round-keeps_non_object setup (state (null_row ∷ [])) null_row null null_claimed refl refl

retry_delay_doubles_example :
    (retry_delay setup 1 ≡ min 30 600)
    × (retry_delay setup 5 ≡ min (2 * retry_delay setup 4) 600)
    × (retry_delay setup 3 ≤ 600)
retry_delay_doubles_example = retry_delay_doubles setup 3

abbrev config : Config
config = record { com_secret = "s3"; secret_header = "x-secret"; max_body_bytes = 10; mode = spool }

abbrev request : Request
request = record {
  is_post = true;
  headers = ("x-secret", "s3") ∷ ("content-length", "2") ∷ [];
  body = 123 ∷ 125 ∷ [];
}

request_accepted : (webhook config setup request (state two_rows)).0.status ≡ 202
unfolding webhook hpe_com_event_integratio.Bridge.App.gated_reply
    hpe_com_event_integratio.Bridge.App.gate hpe_com_event_integratio.Bridge.App.handshake_gate
    lookup hpe_com_event_integratio.Bridge.App.secret_gate
    hpe_com_event_integratio.Bridge.App.digest_gate hpe_com_event_integratio.Http.compare_digest
    hpe_com_event_integratio.Base.Text.is_ascii hpe_com_event_integratio.Bridge.App.length_gate
    hpe_com_event_integratio.Http.is_digit hpe_com_event_integratio.Base.Text.all_chars
    hpe_com_event_integratio.Base.Text.is_latin_digit
    hpe_com_event_integratio.Bridge.App.announced_gate hpe_com_event_integratio.Http.to_int
    hpe_com_event_integratio.Base.Text.parse_decimal hpe_com_event_integratio.Bridge.App.body_gate
    hpe_com_event_integratio.Bridge.App.parsed_reply
    hpe_com_event_integratio.Bridge.App.deliver_by_mode accept_to_spool
    hpe_com_event_integratio.Bridge.App.spool_reply hpe_com_event_integratio.Bridge.Spool.put_lane
request_accepted = refl

webhook-accepts-IsAuthentic_example :
    IsAuthentic config request × ((payload : Json) × (setup.loads request.body ≡ ok payload))
webhook-accepts-IsAuthentic_example =
    webhook-accepts-IsAuthentic config setup request (state two_rows) request_accepted

webhook-Spools_example :
    Spools request.body "unknown" (state two_rows) (webhook config setup request (state two_rows))
unfolding lookup
webhook-Spools_example = webhook-Spools config setup request (state two_rows) refl

-- Five bytes fit the overflow lane alone.
five_bytes_overflow :
    (has_room true (1 ∷ 2 ∷ 3 ∷ 4 ∷ 5 ∷ []) (store two_rows) ≡ false)
    × (has_room false (1 ∷ 2 ∷ 3 ∷ 4 ∷ 5 ∷ []) (store two_rows) ≡ true)
unfolding lane_bytes
five_bytes_overflow = (refl, refl)

abbrev five_bytes : List ℕ
five_bytes = 1 ∷ 2 ∷ 3 ∷ 4 ∷ 5 ∷ []

accept_to_spool_lanes_example :
    let (response, t) = accept_to_spool five_bytes "server" (state two_rows) in
    (response.status ≡ (
      if has_room true five_bytes (store two_rows) || has_room false five_bytes (store two_rows)
      then 202
      else 503))
    × (t ≡ (
        if has_room true five_bytes (store two_rows)
        then with_row true five_bytes "server" (state two_rows)
        else if has_room false five_bytes (store two_rows)
        then with_row false five_bytes "server" (state two_rows)
        else state two_rows))
accept_to_spool_lanes_example = accept_to_spool_lanes five_bytes "server" (state two_rows)
