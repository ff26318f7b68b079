-- ===== src/Relay/Queues/Sqs.antt =====
-- relay/core/queue/sqs.py (`SqsPublisher`) and shim/core/queue/sqs.py (`SqsConsumer`) of com-event-relay.
use hpe_com_event_integratio.Base.{
  ℕ, String, Bool, true, false, List, [], ◌∷◌, ◌++◌, Option, none, some,
}
use hpe_com_event_integratio.Python.{Result, ok, raised, ◌>>=◌, key_error}
use hpe_com_event_integratio.Core.Secrets.{Host}
use hpe_com_event_integratio.Relay.App.{Message}
use hpe_com_event_integratio.Relay.Shim.{ReceivedMessage, Ack, complete, abandon, dead_letter}

-- `bytes.decode("utf-8")` and `str.encode("utf-8")`
pub record Utf8 : Type 0 where
  pub decode : List ℕ → Result String
  pub encode : String → List ℕ

-- `os.environ[name]`
abbrev pub environ : Option String → Result String
environ none = raised key_error
environ (some s) = ok s

-- The constructors: the queue's URL and the region.
pub record SqsQueue : Type 0 where
  pub url : String
  pub region : Option String

unfoldable pub sqs_queue : Host → Result SqsQueue
sqs_queue h = do
  url ← environ (h.env "SQS_QUEUE_URL")
  ok (record { url = url; region = h.env "AWS_REGION" })

-- The arguments of `send_message`; an attribute is a `String` value.
pub record SqsMessage : Type 0 where
  pub message_body : String
  pub attributes : List (String × String)

-- `publish`, for what `send_message` does.
abbrev pub send_decoded :
    {Q : Type 0}
    → (SqsMessage → Q → Result (Unit {0}) × Q)
    → List (String × String)
    → Q
    → Result String
    → Result (Unit {0}) × Q
send_decoded send_message properties queue (raised e) = (raised e, queue)
send_decoded send_message properties queue (ok s) =
    send_message (record { message_body = s; attributes = properties }) queue

unfoldable pub publish :
    {Q : Type 0}
    → Utf8
    → (SqsMessage → Q → Result (Unit {0}) × Q)
    → Message
    → Q
    → Result (Unit {0}) × Q
publish utf8 send_message m queue = send_decoded send_message m.1 queue (utf8.decode m.0)

-- `health`, for what `get_queue_attributes` does.
abbrev pub health : Result (Unit {0}) → Bool
health (ok _) = true
health (raised e) = false

-- A message that `receive_message` returns. An attribute may come without a `StringValue`.
pub record Polled : Type 0 where
  pub body : String
  pub attributes : List (String × Option String)
  pub receipt_handle : ℕ

abbrev pub or_blank : Option String → String
or_blank none = ""
or_blank (some s) = s

unfoldable pub props_of : List (String × Option String) → List (String × String)
props_of [] = []
props_of ((k, v) ∷ attributes) = (k, or_blank v) ∷ props_of attributes

unfoldable pub received : Utf8 → Polled → ReceivedMessage
unfolding props_of
received utf8 m = record {
  body = utf8.encode m.body;
  properties = props_of m.attributes;
  handle = m.receipt_handle;
}

unfoldable pub received_all : Utf8 → List Polled → List ReceivedMessage
unfolding received
received_all utf8 [] = []
received_all utf8 (m ∷ ms) = received utf8 m ∷ received_all utf8 ms

-- `receive`, for the polls so far: an empty one is passed over.
unfoldable pub receive : Utf8 → List (List Polled) → List ReceivedMessage
unfolding received_all
receive utf8 [] = []
receive utf8 (messages ∷ polls) = received_all utf8 messages ++ receive utf8 polls

-- A call that ends the handling of a message.
pub data SqsCall : Type 0 where
  delete_message : ℕ → SqsCall
  change_message_visibility : ℕ → ℕ → SqsCall

-- The terminal actions.
abbrev pub acknowledge : Ack → ReceivedMessage → SqsCall
acknowledge complete msg = delete_message msg.handle
acknowledge abandon msg = change_message_visibility msg.handle 0
acknowledge dead_letter msg = delete_message msg.handle
