-- ===== src/Tests/Channels.antt =====
-- The queues, the spool as a journal, start-up, and the adapters for issues and chats.
use hpe_com_event_integratio.Base.{
  ℕ, String, Bool, true, false, List, [], ◌∷◌, Option, none, some, ◌≡◌, ◌⊎◌, refl, sym, ap, arith,
  ◌==◌, nat_eq, nat_eq_iff, Bool-cases, inl, inr, if◌then◌else◌,
}
use hpe_com_event_integratio.Base.Dict.{lookup}
use mathlib.Core.Option
use hpe_com_event_integratio.Python.{
  Json, text, array, object, nil, cons, field, end, Result, ok, raised, runtime_error,
  unicode_decode_error, get,
}
use hpe_com_event_integratio.Http.{Request}
use hpe_com_event_integratio.Core.Secrets.{Host, os_error, is_set}
use hpe_com_event_integratio.Core.Event.{CanonicalEvent, blank, clear}
use hpe_com_event_integratio.Core.Com.{Response}
use hpe_com_event_integratio.Core.Enrich.{Enricher}
use hpe_com_event_integratio.Core.Adapters.Jira.{Jira, corr_label}
use hpe_com_event_integratio.Core.Adapters.Jira.Exchange
use hpe_com_event_integratio.Relay.App.{Draw, enqueue}
use hpe_com_event_integratio.Relay.Queues.Sqs.{Utf8, SqsMessage, publish, Polled}
use hpe_com_event_integratio.Relay.Queues.RoundTrip.{IsCopy, IsCodec, Arrives, enqueue-Arrives}
use hpe_com_event_integratio.Bridge.Startup.{Started, start, start-IsSafe}

-- A codec for texts of the letter a, one byte each.
abbrev is_a : List ℕ → Bool
is_a (n ∷ []) = nat_eq n 0x61
is_a _ = false

abbrev decode : List ℕ → Result String
decode bytes = if is_a bytes then ok "a" else raised unicode_decode_error

abbrev encode : String → List ℕ
encode s = if s == "a" then 0x61 ∷ [] else []

abbrev codec : Utf8
codec = record { decode = decode; encode = encode }

abbrev some_values : List (String × String) → List (String × Option String)
some_values [] = []
some_values ((k, v) ∷ d) = (k, some v) ∷ some_values d

abbrev transit : SqsMessage → Polled
transit m = record {
  body = m.message_body;
  attributes = some_values m.attributes;
  receipt_handle = 7;
}

lookup-some_values :
    (k : String) (d : List (String × String))
    → lookup k (some_values d) ≡ Option.map some (lookup k d)
unfolding lookup
lookup-some_values k [] = refl
lookup-some_values k ((j, v) ∷ d) = elim (Bool-cases (j == k)) [
  | inl e ↦ rw e refl
  | inr e ↦ rw e (lookup-some_values k d)
]

copies : (m : SqsMessage) → IsCopy m (transit m)
copies m = (refl, λ k. lookup-some_values k m.attributes)

codec-IsCodec : IsCodec codec
codec-IsCodec [] s h = cc
codec-IsCodec (n ∷ m ∷ bytes) s h = cc
codec-IsCodec (n ∷ []) s h = elim (Bool-cases (nat_eq n 0x61)) [
  | inr e ↦ absurd (ground (arith, h, e))
  | inl e ↦
      let same : "a" ≡ s = ground (arith, h, e) in
      rw (← same) (ap (λ k. k ∷ []) (sym ((nat_eq_iff n 0x61).0 e)))
]

abbrev request : Request
request = record { is_post = true; headers = []; body = 0x61 ∷ [] }

abbrev draw : Draw
draw = record { uuid = "u1"; now = 5 }

abbrev send_message : SqsMessage → List SqsMessage → Result (Unit {0}) × List SqsMessage
send_message m queue = (ok tt, m ∷ queue)

accepted : (enqueue (publish codec send_message) request draw []).0.status ≡ 202
unfolding enqueue publish
accepted = refl

enqueue-Arrives_example :
    (sent : SqsMessage) × ((send_message sent []).0 ≡ ok tt)
    × Arrives codec request draw (transit sent)
enqueue-Arrives_example =
    enqueue-Arrives codec send_message transit request draw [] codec-IsCodec copies accepted

abbrev jira : Jira
jira = record {
  api = "https://jira.example";
  project = "COM";
  issue_type = "Incident";
  close_transition = " done";
  extra_labels = [];
}

abbrev issues : Json
issues = object (field "issues" (array (cons (object (field "key" (text "COM-1") end)) nil)) end)

abbrev transitions : Json
transitions = object (
    field "transitions"
      (array (cons (object (field "name" (text "Done") (field "id" (text "31") end))) nil)) end)

abbrev jira_reply : Exchange.Call → Json
jira_reply (Exchange.search_issues q) = issues
jira_reply (Exchange.get_transitions k) = transitions
jira_reply _ = object end

abbrev answer : List Exchange.Call → Exchange.Call → Result Response
answer calls call = ok (record { status = 200; document = ok (jira_reply call) })

abbrev recovery : CanonicalEvent
recovery = record blank { correlation_key = "server:s 1:health"; action = clear; title = text "ok" }

-- A space may not stand in a label.
label_run : corr_label recovery ≡ "com-server_s_1_health"
unfolding corr_label
label_run = refl

abbrev no_calls : Exchange.State
no_calls = record { calls = [] }

abbrev bridge_host : Host
bridge_host = record {
  env = λ name.
      if name == "COM_SHARED_SECRET"
      then some "s"
      else if name == "SPOOL_PATH"
      then some "/data/spool.db"
      else none;
  read = λ name. os_error;
}

abbrev adapters : Result (List String)
adapters = ok ("jira" ∷ [])

abbrev no_enricher : String → Result Enricher
no_enricher name = raised runtime_error

abbrev number : String → Result ℕ
number s = ok 262144

abbrev started : Started String
started = record {
  com_secret = some "s";
  secret_header = "x-shim-secret";
  max_body_bytes = 262144;
  delivery_mode = "spool";
  adapters = "jira" ∷ [];
  enrichers = [];
}

started_run : start number adapters no_enricher bridge_host ≡ ok started
unfolding start hpe_com_event_integratio.Core.Registry.instantiate_all
    hpe_com_event_integratio.Core.Registry.ordered_names
started_run = refl

start-IsSafe_example :
    (((started.delivery_mode == "sync") ≡ true) × (started.enrichers ≡ []))
    ⊎ (((started.delivery_mode == "spool") ≡ true) × (is_set (bridge_host.env "SPOOL_PATH") ≡ true))
start-IsSafe_example = start-IsSafe number adapters no_enricher bridge_host started started_run
