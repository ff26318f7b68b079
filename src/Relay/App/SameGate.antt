-- ===== src/Relay/App/SameGate.antt =====
-- The relay's checks and the bridge's are two texts of one decision.
use hpe_com_event_integratio.Base.{
  String, Option, none, some, not, length, ltb, ◌≡◌, ◌≢◌, ◌⊎◌, inl, inr, refl, arith,
}
use hpe_com_event_integratio.Base.Dict.{lookup}
use hpe_com_event_integratio.Python.{Exc, Result, ok, raised}
use hpe_com_event_integratio.Http.{
  Request, Response, Gate, answered, admitted, compare_digest, is_digit, to_int,
}
use hpe_com_event_integratio.Bridge.App
use hpe_com_event_integratio.Relay.App.{
  Config, Message, Draw, Check, answer, pass, check_secret, check_length, checks, properties_of,
  enqueue, checked_reply, webhook, then_check, check_challenge, refuse_if, get_or_empty,
  enqueue_reply,
}

-- What a check decides, as the bridge's gate would say it.
abbrev pub gate_of : Request → Check → Gate
gate_of req (answer r) = answered r
gate_of req pass = admitted req.body

-- The relay's configuration with a delivery mode, which the gate does not read.
abbrev pub bridge_config : Config → App.Mode → App.Config
bridge_config c mode = record {
  com_secret = c.com_secret;
  secret_header = c.secret_header;
  max_body_bytes = c.max_body_bytes;
  mode = mode;
}

module _ (c : Config) (mode : App.Mode) (req : Request) where
  abbrev length_checks : Option String → Check
  length_checks announced =
      then_check (check_length c announced) (refuse_if (ltb c.max_body_bytes (length req.body)) 413)

  abbrev secret_checks : Option String → Check
  secret_checks received =
      then_check (check_secret c (get_or_empty received))
        (length_checks (lookup "content-length" req.headers))

  length-gate :
      (announced : Option String)
      → App.length_gate (bridge_config c mode) req announced ≡ gate_of req (length_checks announced)
  unfolding check_length App.length_gate App.announced_gate App.body_gate
  length-gate none = ground arith
  length-gate (some s) = ground arith

  secret-gate :
      (received : Option String)
      → App.secret_gate (bridge_config c mode) req received ≡ gate_of req (secret_checks received)
  unfolding check_secret App.secret_gate App.digest_gate
  secret-gate none = refl
  secret-gate (some s) = ground (arith, length-gate (lookup "content-length" req.headers))

  handshake-gate :
      (challenge : Option String)
      → App.handshake_gate (bridge_config c mode) req challenge
        ≡ gate_of req (
            then_check (check_challenge challenge) (
              then_check
                (refuse_if (not req.is_post) 400)
                (secret_checks (lookup c.secret_header req.headers))))
  unfolding App.handshake_gate
  handshake-gate (some t) = refl
  handshake-gate none = ground (arith, secret-gate (lookup c.secret_header req.headers))

  -- The checks before the body is parsed or published, that is of the challenge, the method, the secret
  -- and the size, are decided alike by the relay and the bridge: for every request they give the same
  -- early answer, or both let the same body through.
  pub checks-gate : App.gate (bridge_config c mode) req ≡ gate_of req (checks c req)
  unfolding checks App.gate
  checks-gate = handshake-gate (lookup App.challenge_header req.headers)

module _ {Q : Type 0} (publish : Message → Q → Result (Unit {0}) × Q) (c : Config) (req : Request)
    (d : Draw) where
  -- The message of the request.
  abbrev pub sent : Message
  sent = (req.body, properties_of req d)

  -- Answered early with the queue left alone, or published once and answered by what that did.
  abbrev pub Enqueues : Q → Response × Q → Type 0
  Enqueues queue out =
      ((out.0.status ≢ 202)
        × ((r : Response) × (checks c req ≡ answer r) × (out.0 ≡ r))
        × (out.1 ≡ queue))
      ⊎ ((checks c req ≡ pass)
          × (out.1 ≡ (publish sent queue).1)
          × (((out.0.status ≡ 202) × ((publish sent queue).0 ≡ ok tt))
              ⊎ ((out.0.status ≡ 503) × ((e : Exc) × ((publish sent queue).0 ≡ raised e)))))

  early-not_202 : (r : Response) → checks c req ≡ answer r → r.status ≢ 202
  unfolding checks check_secret check_length compare_digest is_digit to_int
  early-not_202 r e = ground arith

  replied :
      (result : Result (Unit {0}))
      → (((enqueue_reply result d.uuid).status ≡ 202) × (result ≡ ok tt))
        ⊎ (((enqueue_reply result d.uuid).status ≡ 503) × ((e : Exc) × (result ≡ raised e)))
  unfolding enqueue_reply
  replied (raised e) = inr (refl, (e, refl))
  replied (ok _) = inl (refl, refl)

  checked :
      (check : Check) (queue : Q)
      → checks c req ≡ check
      → Enqueues queue (checked_reply publish check req d queue)
  unfolding checked_reply enqueue
  checked (answer r) queue e = inl (early-not_202 r e, (r, e, refl), refl)
  checked pass queue e = inr (e, refl, replied (publish sent queue).0)

  -- A request that a check answers never gets 202 and leaves the queue alone. Any other is published
  -- once, its body and its properties, and the queue is as `publish` leaves it: the answer is 202
  -- exactly where `publish` returned, and 503 where it raised.
  pub webhook-Enqueues : (queue : Q) → Enqueues queue (webhook publish c req d queue)
  unfolding webhook
  webhook-Enqueues queue = checked (checks c req) queue refl
