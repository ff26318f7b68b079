-- ===== src/Relay/Queues/ServiceBus.antt =====
-- relay/core/queue/servicebus.py (`ServiceBusPublisher`) and shim/core/queue/servicebus.py
-- (`ServiceBusConsumer`) of com-event-relay.
use hpe_com_event_integratio.Base.{
  ℕ, String, true, List, [], ◌∷◌, Option, none, contains, if◌then◌else◌,
}
use hpe_com_event_integratio.Base.Dict.{insert}
use hpe_com_event_integratio.Base.Text.{strip, lower}
use hpe_com_event_integratio.Python.{Result, ok, ◌>>=◌}
use hpe_com_event_integratio.Core.Secrets.{Host, get_secret, text_of}
use hpe_com_event_integratio.Relay.App.{Message}
use hpe_com_event_integratio.Relay.Shim.{ReceivedMessage, Ack, complete, abandon, dead_letter}
use hpe_com_event_integratio.Relay.Queues.Sqs.{Utf8, environ}

pub data Transport : Type 0 where
  amqp amqp_over_websocket : Transport

-- The constructors: the connection, the queue and, for the consumer, the transport.
pub record BusQueue : Type 0 where
  pub connection : Option String
  pub queue : String
  pub transport : Transport

abbrev transport_of : Host → Transport
transport_of h =
    if contains ("websocket" ∷ "websockets" ∷ "ws" ∷ [])
      (lower (strip (text_of (h.env "SERVICE_BUS_TRANSPORT"))))
    then amqp_over_websocket
    else amqp

unfoldable pub bus_queue : Host → Result BusQueue
unfolding get_secret strip lower
bus_queue h = do
  connection ← get_secret h "SERVICE_BUS_CONNECTION" none true
  queue ← environ (h.env "QUEUE_NAME")
  ok (record { connection = connection; queue = queue; transport = transport_of h })

-- `publish`, for what the SDK does from the connection on.
abbrev pub publish : (Message → Result (Unit {0})) → Message → Result (Unit {0})
publish send_messages m = send_messages m

-- A key or a value of the application properties.
pub data Name : Type 0 where
  as_bytes : List ℕ → Name
  as_str : String → Name

-- A message of the receiver: its text, by `str`, and its properties.
pub record BusMessage : Type 0 where
  pub content : String
  pub application_properties : List (Name × Name)
  pub handle : ℕ

abbrev pub name_text : Utf8 → Name → Result String
name_text utf8 (as_bytes b) = utf8.decode b
name_text utf8 (as_str s) = ok s

unfoldable pub add_props :
    Utf8 → List (Name × Name) → List (String × String) → Result (List (String × String))
add_props utf8 [] props = ok props
add_props utf8 ((k, v) ∷ rest) props = do
  key ← name_text utf8 k
  val ← name_text utf8 v
  add_props utf8 rest (insert key val props)

unfoldable pub received : Utf8 → BusMessage → Result ReceivedMessage
unfolding add_props insert
received utf8 m = do
  props ← add_props utf8 m.application_properties []
  ok (record { body = utf8.encode m.content; properties = props; handle = m.handle })

-- The terminal actions are calls of the same names.
pub data BusCall : Type 0 where
  complete_message abandon_message dead_letter_message : ℕ → BusCall

abbrev pub acknowledge : Ack → ReceivedMessage → BusCall
acknowledge complete msg = complete_message msg.handle
acknowledge abandon msg = abandon_message msg.handle
acknowledge dead_letter msg = dead_letter_message msg.handle
