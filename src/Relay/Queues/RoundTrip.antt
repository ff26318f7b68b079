-- ===== src/Relay/Queues/RoundTrip.antt =====
-- What the relay publishes is what the shim receives.
use hpe_com_event_integratio.Base.{
  ℕ, String, List, [], ◌∷◌, Option, none, some, ◌≡◌, ◌≢◌, ◌==◌, refl, ap, sym, ◌∙◌, arith, inl, inr,
  Bool-cases,
}
use hpe_com_event_integratio.Base.Dict.{lookup}
use hpe_com_event_integratio.Python.{Exc, Result, ok, raised, Result-cases}
use hpe_com_event_integratio.Http.{Request}
use mathlib.Core.Option
use hpe_com_event_integratio.Relay.App.{Draw, Message, properties_of, enqueue, enqueue_reply}
use hpe_com_event_integratio.Relay.Queues.Sqs.{
  Utf8, SqsMessage, publish, Polled, or_blank, props_of, received,
}

-- What `receive_message` returns of what `send_message` took: the same body, and under each name the
-- attribute's value as its `StringValue`.
abbrev pub IsCopy : SqsMessage → Polled → Type 0
IsCopy sent got =
    (got.body ≡ sent.message_body)
    × ((k : String) → lookup k got.attributes ≡ Option.map some (lookup k sent.attributes))

lookup-props_of :
    (k : String) (attributes : List (String × Option String))
    → lookup k (props_of attributes) ≡ Option.map or_blank (lookup k attributes)
unfolding lookup props_of
lookup-props_of k [] = refl
lookup-props_of k ((j, v) ∷ attributes) = elim (Bool-cases (j == k)) [
  | inl e ↦ rw e refl
  | inr e ↦ rw e (lookup-props_of k attributes)
]

blank_some : (o : Option String) → Option.map or_blank (Option.map some o) ≡ o
blank_some none = refl
blank_some (some s) = refl

-- Encoding gives back the bytes that were decoded.
abbrev pub IsCodec : Utf8 → Type 0
IsCodec utf8 = (bytes : List ℕ) (s : String) → utf8.decode bytes ≡ ok s → utf8.encode s ≡ bytes

-- The message that `publish` sends.
abbrev pub SentFor : Utf8 → Message → SqsMessage → Type 0
SentFor utf8 m sent = (utf8.decode m.0 ≡ ok sent.message_body) × (sent.attributes ≡ m.1)

received-body :
    (utf8 : Utf8) (m : Message) (sent : SqsMessage) (got : Polled)
    → IsCodec utf8
    → SentFor utf8 m sent
    → IsCopy sent got
    → (received utf8 got).body ≡ m.0
unfolding received
received-body utf8 m sent got codec (decoded, same) (copy, props) =
    ap utf8.encode copy ∙ codec m.0 sent.message_body decoded

-- The message that the shim handles has the body and the properties of the request.
abbrev pub Arrives : Utf8 → Request → Draw → Polled → Type 0
Arrives utf8 req d got =
    ((received utf8 got).body ≡ req.body)
    × ((k : String) → lookup k (received utf8 got).properties ≡ lookup k (properties_of req d))

received-properties :
    (utf8 : Utf8) (sent : SqsMessage) (got : Polled) (k : String)
    → IsCopy sent got
    → lookup k (received utf8 got).properties ≡ lookup k sent.attributes
unfolding received
received-properties utf8 sent got k (copy, props) =
    lookup-props_of k got.attributes
    ∙ ap (Option.map or_blank) (props k)
    ∙ blank_some (lookup k sent.attributes)

module _ {Q : Type 0} (utf8 : Utf8) (send_message : SqsMessage → Q → Result (Unit {0}) × Q)
    (transit : SqsMessage → Polled) where
  sends :
      {m : Message} (s : String) (queue : Q)
      → utf8.decode m.0 ≡ ok s
      → publish utf8 send_message m queue
        ≡ send_message (record { message_body = s; attributes = m.1 }) queue
  unfolding publish
  sends s queue e = rw e refl

  undecoded :
      (req : Request) (d : Draw) (queue : Q) (x : Exc)
      → utf8.decode req.body ≡ raised x
      → (publish utf8 send_message (req.body, properties_of req d) queue).0 ≢ ok tt
  unfolding publish
  undecoded req d queue x e h = absurd (ground (arith, h, e))

  publish-Arrives :
      (req : Request) (d : Draw) (queue : Q)
      → IsCodec utf8
      → ((sent : SqsMessage) → IsCopy sent (transit sent))
      → (publish utf8 send_message (req.body, properties_of req d) queue).0 ≡ ok tt
      → (sent : SqsMessage) × ((send_message sent queue).0 ≡ ok tt)
        × Arrives utf8 req d (transit sent)
  publish-Arrives req d queue codec copies h = elim (Result-cases (utf8.decode req.body)) [
    | inr (x, e) ↦ absurd (undecoded req d queue x e h)
    | inl (s, decoded) ↦
        let sent : SqsMessage = record { message_body = s; attributes = properties_of req d } in
        (
          sent,
          ap (λ r. r.0) (sym (sends s queue decoded)) ∙ h,
          (
            received-body utf8 (req.body, properties_of req d) sent (transit sent) codec
                (decoded, refl) (copies sent),
            λ k. received-properties utf8 sent (transit sent) k (copies sent),
          ),
        )
  ]

  -- Over SQS, where the relay answers 202 it has sent a message from which the shim gets the bytes of
  -- the request's body back and, under each name, the property that the relay gave. It is assumed that
  -- SQS gives back a message as it was sent, and that encoding undoes decoding.
  pub enqueue-Arrives :
      (req : Request) (d : Draw) (queue : Q)
      → IsCodec utf8
      → ((sent : SqsMessage) → IsCopy sent (transit sent))
      → (enqueue (publish utf8 send_message) req d queue).0.status ≡ 202
      → (sent : SqsMessage) × ((send_message sent queue).0 ≡ ok tt)
        × Arrives utf8 req d (transit sent)
  unfolding enqueue enqueue_reply
  enqueue-Arrives req d queue codec copies accepted =
      elim (Result-cases (publish utf8 send_message (req.body, properties_of req d) queue).0) [
        | inl (_, e) ↦ publish-Arrives req d queue codec copies e
        | inr (x, e) ↦ absurd (ground (arith, accepted, e))
      ]
