-- ===== src/Relay/App.antt =====
-- The handlers of com-event-relay/relay/app.py. The queue's SDK is the parameter `publish`
-- on a queue of any kind; the uuid
-- and the clock are arguments.
pub mod SameGate
use hpe_com_event_integratio.Base.{
  ℕ, String, Bool, true, false, List, [], ◌∷◌, ◌++◌, Option, none, some, not, ◌&&◌, ◌||◌, truthy,
  length, ltb, if◌then◌else◌,
}
use hpe_com_event_integratio.Base.Dict.{lookup}
use hpe_com_event_integratio.Base.Text.{decimal}
use hpe_com_event_integratio.Python.{Exc, Result, ok, raised, ◌>>=◌}
use hpe_com_event_integratio.Http.{Request, Response, status_only, compare_digest, is_digit, to_int}

pub record Config : Type 0 where
  pub com_secret : String
  pub secret_header : String
  pub max_body_bytes : ℕ

-- What is put on the queue: the body and its properties.
abbrev pub Message : Type 0
Message = List ℕ × List (String × String)

-- The values that the handler draws for one request.
pub record Draw : Type 0 where
  pub uuid : String
  pub now : ℕ

-- An early answer of the handler, or the step after it.
pub data Check : Type 0 where
  answer : Response → Check
  pass : Check

abbrev pub then_check : Check → Check → Check
then_check (answer r) next = answer r
then_check pass next = next

-- An exception that nothing catches becomes status 500.
abbrev pub or_crash : Result Check → Check
or_crash (ok check) = check
or_crash (raised e) = answer (status_only 500)

abbrev pub refuse_if : Bool → ℕ → Check
refuse_if true status = answer (status_only status)
refuse_if false status = pass

abbrev pub get_or_empty : Option String → String
get_or_empty none = ""
get_or_empty (some s) = s

-- `if challenge is not None`
abbrev pub check_challenge : Option String → Check
check_challenge none = pass
check_challenge (some t) = answer (record { status = 200; event_id = none; verification = some t })

unfoldable pub check_secret : Config → String → Check
check_secret c received =
    if truthy received
    then or_crash (compare_digest received c.com_secret >>= λ same. ok (refuse_if (not same) 401))
    else answer (status_only 401)

unfoldable pub check_length : Config → Option String → Check
check_length c none = pass
check_length c (some s) =
    if is_digit s
    then or_crash (to_int s >>= λ n. ok (refuse_if (ltb c.max_body_bytes n) 413))
    else pass

-- `webhook` up to its step 4.
unfoldable pub checks : Config → Request → Check
checks c req =
    then_check (check_challenge (lookup "x-compute-ops-mgmt-verification-challenge" req.headers)) (
      then_check (refuse_if (not req.is_post) 400) (
        then_check (check_secret c (get_or_empty (lookup c.secret_header req.headers))) (
          then_check (check_length c (lookup "content-length" req.headers))
            (refuse_if (ltb c.max_body_bytes (length req.body)) 413))))

abbrev or_unknown : Option String → String
or_unknown none = "unknown"
or_unknown (some s) = s

abbrev pub properties_of : Request → Draw → List (String × String)
properties_of req d =
    ("relay_event_id", d.uuid)
    ∷ ("event_type", or_unknown (lookup "x-compute-ops-mgmt-event-type" req.headers))
    ∷ ("received_at", decimal d.now)
    ∷ ("source", "com-event-relay")
    ∷ []

-- The answer to what `publish` did.
unfoldable pub enqueue_reply : Result (Unit {0}) → String → Response
enqueue_reply (raised e) id = status_only 503
enqueue_reply (ok _) id = record { status = 202; event_id = some id; verification = none }

-- `Q` is the state of the queue: `publish` may leave any other, also where it raises.
module _ {Q : Type 0} (publish : Message → Q → Result (Unit {0}) × Q) where
  -- Step 4: publish the body as it came.
  unfoldable pub enqueue : Request → Draw → Q → Response × Q
  unfolding enqueue_reply
  enqueue req d queue =
      let (result, later) = publish (req.body, properties_of req d) queue in
      (enqueue_reply result d.uuid, later)

  unfoldable pub checked_reply : Check → Request → Draw → Q → Response × Q
  checked_reply (answer r) req d queue = (r, queue)
  checked_reply pass req d queue = enqueue req d queue

  unfoldable pub webhook : Config → Request → Draw → Q → Response × Q
  webhook c req d queue = checked_reply (checks c req) req d queue

-- `readiness`
unfoldable pub readiness : Bool → ℕ
readiness healthy = if healthy then 200 else 503
