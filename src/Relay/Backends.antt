-- ===== src/Relay/Backends.antt =====
-- The choice of the queue: `get_publisher` (relay/core/queue/base.py) and `get_consumer`
-- (shim/core/queue/base.py), two texts of one function, and their `_require`.
use hpe_com_event_integratio.Base.{
  String, ◌<>◌, Bool, true, ◌||◌, List, [], ◌∷◌, Option, none, some, ◌≡◌, arith, ◌==◌,
  if◌then◌else◌, Bool-cases, inl, inr,
}
use hpe_com_event_integratio.Base.Text.{strip, lower, rstrip_char}
use hpe_com_event_integratio.Python.{Result, ok, raised, value_error, runtime_error, ◌>>=◌}
use hpe_com_event_integratio.Core.Secrets.{Host, contents, is_set, text_of, get_secret}

pub data Backend : Type 0 where
  servicebus sqs : Backend

-- Either `<name>` or `<name>_FILE` is set.
abbrev pub is_present : Host → String → Bool
is_present h n = is_set (h.env n) || is_set (h.env (n <> "_FILE"))

unfoldable pub missing : Host → List String → List String
missing h [] = []
missing h (n ∷ names) = let rest = missing h names in if is_present h n then rest else n ∷ rest

abbrev none_missing : List String → Result (Unit {0})
none_missing [] = ok tt
none_missing (n ∷ names) = raised runtime_error

unfoldable pub require : Host → List String → Result (Unit {0})
unfolding missing
require h names = none_missing (missing h names)

abbrev backend_setting : Option String → String
backend_setting none = "servicebus"
backend_setting (some s) = s

abbrev pub service_bus_names : List String
service_bus_names = "SERVICE_BUS_CONNECTION" ∷ "QUEUE_NAME" ∷ []

abbrev pub sqs_names : List String
sqs_names = "SQS_QUEUE_URL" ∷ []

unfoldable pub choose_backend : Host → String → Result Backend
unfolding require
choose_backend h backend =
    if backend == "servicebus"
    then (require h service_bus_names >>= λ _. ok servicebus)
    else if backend == "sqs"
    then (require h sqs_names >>= λ _. ok sqs)
    else raised value_error

unfoldable pub get_publisher : Host → Result Backend
unfolding choose_backend
get_publisher h = choose_backend h (lower (strip (backend_setting (h.env "QUEUE_BACKEND"))))

unfoldable pub get_consumer : Host → Result Backend
unfolding choose_backend
get_consumer h = choose_backend h (lower (strip (backend_setting (h.env "QUEUE_BACKEND"))))

-- A file that is named can be read.
abbrev pub Readable : Host → String → Type 0
Readable h n =
    is_set (h.env (n <> "_FILE")) ≡ true
    → (s : String) × (h.read (text_of (h.env (n <> "_FILE"))) ≡ contents s)

present-get_secret :
    (h : Host) (n : String)
    → is_present h n ≡ true
    → Readable h n
    → (s : String) × (get_secret h n none true ≡ ok (some s))
unfolding get_secret
present-get_secret h n p readable = elim (Bool-cases (is_set (h.env (n <> "_FILE")))) [
  | inl e ↦ let (s, r) = readable e in (rstrip_char 10 s, rw (e, r))
  | inr e ↦ (text_of (h.env n), ground arith)
]

-- Where the start-up check chooses the Service Bus and a connection string kept in a file can be read,
-- the connection string is found: the check and the look-up agree on what counts as given.
get_publisher-get_secret :
    (h : Host)
    → get_publisher h ≡ ok servicebus
    → Readable h "SERVICE_BUS_CONNECTION"
    → (s : String) × (get_secret h "SERVICE_BUS_CONNECTION" none true ≡ ok (some s))
unfolding get_publisher
get_publisher-get_secret h chosen readable =
    present-get_secret h "SERVICE_BUS_CONNECTION" (ground arith) readable
