-- ===== src/Bridge/App/Webhook.antt =====
-- What a webhook's answer says of the state behind it.
use hpe_com_event_integratio.Base.{
  ℕ, ◌+◌, ◌≤◌, String, Bool, true, false, List, [], ◌∷◌, ◌++◌, Option, none, some, ◌≡◌, ◌≢◌, ◌⊎◌,
  inl, inr, refl, arith, length, eq_iff, Bool-cases, leb, ◌||◌, if◌then◌else◌,
}
use hpe_com_event_integratio.Base.Dict.{lookup}
use hpe_com_event_integratio.Python.{Json, Result, ok, raised}
use hpe_com_event_integratio.Http.{
  Request, Response, Gate, answered, admitted, compare_digest, is_digit, to_int,
}
use hpe_com_event_integratio.Bridge.Spool.{Row, SpoolStore, lane_bytes, put_lane}
use hpe_com_event_integratio.Bridge.Worker.{Setup, BridgeState}
use hpe_com_event_integratio.Bridge.App.{
  spool, Config, body_gate, announced_gate, length_gate, digest_gate, secret_gate, handshake_gate,
  gate, challenge_header, event_type, accept_to_spool, spool_reply, overflow_reply, deliver_by_mode,
  parsed_reply, gated_reply, webhook,
}

-- What a request must carry for its body to be looked at.
pub record IsAuthentic (c : Config) (req : Request) : Type 0 where
  pub no_challenge : lookup challenge_header req.headers ≡ none
  pub posted : req.is_post ≡ true
  pub secret : lookup c.secret_header req.headers ≡ some c.com_secret
  pub fits : length req.body ≤ c.max_body_bytes

body_gate-admitted :
    (c : Config) (req : Request) (body : List ℕ)
    → body_gate c req ≡ admitted body
    → (length req.body ≤ c.max_body_bytes) × (body ≡ req.body)
unfolding body_gate
body_gate-admitted c req body h = ground arith

length_gate-admitted :
    (c : Config) (req : Request) (body : List ℕ) (announced : Option String)
    → length_gate c req announced ≡ admitted body
    → (length req.body ≤ c.max_body_bytes) × (body ≡ req.body)
unfolding length_gate announced_gate
length_gate-admitted c req body none h = body_gate-admitted c req body h
length_gate-admitted c req body (some s) h = ground (arith, body_gate-admitted c req body)

secret_gate-admitted :
    (c : Config) (req : Request) (body : List ℕ) (received : Option String)
    → secret_gate c req received ≡ admitted body
    → (received ≡ some c.com_secret) × (length req.body ≤ c.max_body_bytes) × (body ≡ req.body)
unfolding secret_gate digest_gate compare_digest
secret_gate-admitted c req body none h = cc
secret_gate-admitted c req body (some s) h = ground (
  arith,
  eq_iff s c.com_secret,
  length_gate-admitted c req body (lookup "content-length" req.headers),
)

handshake_gate-admitted :
    (c : Config) (req : Request) (body : List ℕ) (challenge : Option String)
    → handshake_gate c req challenge ≡ admitted body
    → (challenge ≡ none)
      × (req.is_post ≡ true)
      × (secret_gate c req (lookup c.secret_header req.headers) ≡ admitted body)
unfolding handshake_gate
handshake_gate-admitted c req body none h = ground arith
handshake_gate-admitted c req body (some t) h = cc

gate-IsAuthentic :
    (c : Config) (req : Request) (body : List ℕ)
    → gate c req ≡ admitted body
    → IsAuthentic c req × (body ≡ req.body)
unfolding gate
gate-IsAuthentic c req body h =
    let first = handshake_gate-admitted c req body (lookup challenge_header req.headers) h in
    let second = secret_gate-admitted c req body (lookup c.secret_header req.headers) first.2 in
    (
      record { no_challenge = first.0; posted = first.1; secret = second.0; fits = second.1 },
      second.2,
    )

gate-answered :
    (c : Config) (req : Request) (r : Response) → gate c req ≡ answered r → r.status ≢ 202
unfolding gate handshake_gate secret_gate digest_gate compare_digest length_gate is_digit
    announced_gate to_int body_gate
gate-answered c req r h = ground arith

gate-cases :
    (g : Gate) → ((r : Response) × (g ≡ answered r)) ⊎ ((body : List ℕ) × (g ≡ admitted body))
gate-cases (answered r) = inl (r, refl)
gate-cases (admitted body) = inr (body, refl)

parsed-accepted :
    (c : Config) (setup : Setup) (req : Request) (body : List ℕ) (r : Result Json) (s : BridgeState)
    → (parsed_reply c setup req body r s).0.status ≡ 202
    → (payload : Json) × (r ≡ ok payload)
unfolding parsed_reply
parsed-accepted c setup req body (ok payload) s h = (payload, refl)
parsed-accepted c setup req body (raised e) s h = absurd (ground arith)

-- A webhook call that is answered 202 was a POST without a challenge, carried the shared secret, kept
-- to the size limit, and had a body that parses.
pub webhook-accepts-IsAuthentic :
    (c : Config) (setup : Setup) (req : Request) (s : BridgeState)
    → (webhook c setup req s).0.status ≡ 202
    → IsAuthentic c req × ((payload : Json) × (setup.loads req.body ≡ ok payload))
unfolding webhook gated_reply
webhook-accepts-IsAuthentic c setup req s h = elim (gate-cases (gate c req)) [
  | inl (r, e) ↦ absurd (gate-answered c req r e (rw (e, gated_reply) at h))
  | inr (body, e) ↦
      let auth = gate-IsAuthentic c req body e in
      (
        auth.0,
        rw (← auth.1)
            (parsed-accepted c setup req body (setup.loads body) s (rw (e, gated_reply) at h)),
      )
]

-- The bytes of the rows that are to be enriched, and of those that are not.
abbrev pub enriched_bytes : List Row → ℕ
enriched_bytes [] = 0
enriched_bytes (r ∷ rows) = (if r.enrich then length r.body else 0) + enriched_bytes rows

abbrev pub plain_bytes : List Row → ℕ
plain_bytes [] = 0
plain_bytes (r ∷ rows) = (if r.enrich then 0 else length r.body) + plain_bytes rows

normal-bytes : (rows : List Row) → lane_bytes true rows ≡ enriched_bytes rows
unfolding lane_bytes
normal-bytes [] = refl
normal-bytes (r ∷ rows) = ground (arith, normal-bytes rows)

overflow-bytes : (rows : List Row) → lane_bytes false rows ≡ plain_bytes rows
unfolding lane_bytes
overflow-bytes [] = refl
overflow-bytes (r ∷ rows) = ground (arith, overflow-bytes rows)

-- Whether a lane has room for a body: the normal one with the rows to be enriched, and the overflow
-- lane with the others, each against its own budget.
abbrev pub has_room : Bool → List ℕ → SpoolStore → Bool
has_room true body store = leb (enriched_bytes store.rows + length body) store.max_bytes
has_room false body store = leb (plain_bytes store.rows + length body) store.overflow_max_bytes

-- The row of an accepted event: its body, due at once, and enriched in the normal lane alone.
abbrev pub accepted_row : Bool → List ℕ → String → BridgeState → Row
accepted_row lane body type s = record {
  id = s.spool.seq + 1;
  body = body;
  properties = ("event_type", type) ∷ ("source", "com-event-bridge") ∷ [];
  enqueued_at = s.station.clock;
  attempts = 0;
  next_attempt = s.station.clock;
  enrich = lane;
}

-- The spool after an accepted event.
abbrev pub with_row : Bool → List ℕ → String → BridgeState → BridgeState
with_row lane body type s = record s {
  spool = record s.spool {
    rows = s.spool.rows ++ accepted_row lane body type s ∷ [];
    seq = s.spool.seq + 1;
  };
}

-- In spool mode an event goes to the normal lane if that has room, else to the overflow lane, to be
-- delivered without enrichment, if that has room; each is answered 202, the row at the end of the
-- spool. It is answered 503, with the spool as it was, exactly if neither lane has room.
pub accept_to_spool_lanes :
    (body : List ℕ) (type : String) (s : BridgeState)
    → let (response, t) = accept_to_spool body type s in
      (response.status
        ≡ (if has_room true body s.spool || has_room false body s.spool then 202 else 503))
      × (t ≡ (
          if has_room true body s.spool
          then with_row true body type s
          else if has_room false body s.spool
          then with_row false body type s
          else s))
unfolding accept_to_spool spool_reply overflow_reply put_lane
accept_to_spool_lanes body type s =
    ground (arith, normal-bytes s.spool.rows, overflow-bytes s.spool.rows)

-- Not accepted and unchanged, or accepted with one more row.
abbrev pub Spools : List ℕ → String → BridgeState → Response × BridgeState → Type 0
Spools body type s out =
    ((out.0.status ≢ 202) × (out.1 ≡ s))
    ⊎ ((out.0.status ≡ 202) × ((lane : Bool) × (out.1 ≡ with_row lane body type s)))

accept_to_spool-Spools :
    (body : List ℕ) (type : String) (s : BridgeState)
    → Spools body type s (accept_to_spool body type s)
accept_to_spool-Spools body type s =
    let lanes = accept_to_spool_lanes body type s in
    elim (Bool-cases (has_room true body s.spool)) [
      | inl e ↦ inr (ground arith, (true, ground arith))
      | inr e ↦ elim (Bool-cases (has_room false body s.spool)) [
        | inl f ↦ inr (ground arith, (false, ground arith))
        | inr f ↦ inl (ground arith, ground arith)
      ]
    ]

module _ (c : Config) (setup : Setup) (req : Request) (s : BridgeState)
    (mode : c.mode ≡ spool) where
  parsed-Spools :
      (r : Result Json) → Spools req.body (event_type req) s (parsed_reply c setup req req.body r s)
  unfolding parsed_reply deliver_by_mode
  parsed-Spools (raised e) = inl (ground arith, refl)
  parsed-Spools (ok payload) = rw mode (accept_to_spool-Spools req.body (event_type req) s)

  gated-Spools :
      (g : Gate) → gate c req ≡ g → Spools req.body (event_type req) s (gated_reply c setup req g s)
  unfolding gated_reply
  gated-Spools (answered r) e = inl (gate-answered c req r e, refl)
  gated-Spools (admitted body) e =
      rw (gate-IsAuthentic c req body e).1 (parsed-Spools (setup.loads req.body))

  -- In spool mode a webhook call that is not answered 202 changes nothing, and one that is leaves the
  -- spool with one more row, at its end, that holds the body of the request.
  pub webhook-Spools : Spools req.body (event_type req) s (webhook c setup req s)
  unfolding webhook
  webhook-Spools = gated-Spools (gate c req) refl
