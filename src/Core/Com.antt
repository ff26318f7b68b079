-- ===== src/Core/Com.antt =====
-- com-event-core/com_event_core/com_client.py: the read-only client of the COM API. Its state is the
-- process-wide token cache, the clock in seconds, and the calls made so far. The HTTP library is the
-- parameter `Transport`: the answer to a call may depend on all the calls before it, and takes any
-- time. An exception has no text, so that what builds one is kept only where it may itself raise.
pub mod Steps
pub mod Tokens
pub mod Hosts
pub mod Sessions
use hpe_com_event_integratio.Base.{
  ℕ, ◌+◌, ◌-◌, String, ◌<>◌, Bool, true, false, List, [], ◌∷◌, Option, none, some, not, ◌&&◌, ◌==◌,
  truthy, ltb, leb, starts_with, if◌then◌else◌,
}
use hpe_com_event_integratio.Base.Text.{rstrip_char, decimal}
use hpe_com_event_integratio.Python.{
  str, Json, bool, number, Exc, runtime_error, value_error, type_error, json_decode_error,
  unicode_decode_error, Result, ok, raised, is_truthy, get, as_text,
}
use hpe_com_event_integratio.Core.Secrets.{Host, get_secret, is_set, text_of}

-- A call of the client: the form posted to the token endpoint, or a GET with its query, sent with the
-- token and the tenant of the client.
pub data Call : Type 0 where
  token_post : String → String → String → Call
  get_request : String → List (String × String) → String → String → Call

pub record Response : Type 0 where
  pub status : ℕ
  -- `r.json()`
  pub document : Result Json

-- `urlparse(u).scheme` and `.netloc`
pub record Url : Type 0 where
  pub scheme : String
  pub netloc : String

-- What is not in the repository. `to_int` is `int(j)` with 0 for a negative number, `at_most` compares
-- the number of a text with a natural one.
pub record Transport : Type 0 where
  pub urlparse : String → Result Url
  pub answer : List Call → Call → Result Response
  pub elapsed : List Call → Call → ℕ
  pub to_int : Json → Result ℕ
  pub at_most : String → ℕ → Bool
  pub is_float : String → Bool
  -- `str` of a list or a dict
  pub repr : Json → String

-- `_TokenCache`, where the empty token stands for none.
pub record ComState : Type 0 where
  pub clock : ℕ
  pub token : String
  pub expires_at : ℕ
  pub calls : List Call

-- A step that may raise, on a state; the state stays where it raised.
abbrev pub Step {ℓ} : Type 0 → Type ℓ → Type ℓ
Step S A = S → Result A × S

abbrev pub Com {ℓ} : Type ℓ → Type ℓ
Com A = Step ComState A

module _ {ℓ κ} {S : Type 0} {A : Type ℓ} {B : Type κ} where
  abbrev pub and_then : (A → Step S B) → Result A × S → Result B × S
  and_then f (ok a, s) = f a s
  and_then f (raised e, s) = (raised e, s)

  infixl 5 ◌>>=◌
  abbrev pub ◌>>=◌ : Step S A → (A → Step S B) → Step S B
  m >>= f = λ s. and_then f (m s)

module _ {ℓ} {S : Type 0} {A : Type ℓ} where
  abbrev pub lift : Result A → Step S A
  lift r = λ s. (r, s)

  abbrev pub or_none : Result A × S → Result (Option A) × S
  or_none (ok a, s) = (ok (some a), s)
  or_none (raised e, s) = (ok none, s)

  -- `try: ... except Exception: return None`
  abbrev pub attempt : Step S A → Step S (Option A)
  attempt m = λ s. or_none (m s)

-- `r.is_error`
abbrev pub is_error : Response → Bool
is_error r = leb 400 r.status

-- `except ValueError`
abbrev pub is_value_error : Exc → Bool
is_value_error value_error = true
is_value_error json_decode_error = true
is_value_error unicode_decode_error = true
is_value_error _ = false

-- The text of the failure, `body.get(first) or body.get(second) or ...`, and then `ComApiError`.
unfoldable pub failure : String → String → Result Json → Exc
unfolding get
failure first second (raised e) = if is_value_error e then runtime_error else e
failure first second (ok body) = elim (get body first) [ ok j ↦ runtime_error | raised e ↦ e ]

-- `_check`
unfoldable pub check : Response → Result Json
check r =
    if is_error r then raised (failure "message" "error_description" r.document) else r.document

pub record Client : Type 0 where
  pub base : String
  pub bearer : String
  pub tenant : String

-- `int(body.get("expires_in") or 3600)`
abbrev pub lifetime : (Json → Result ℕ) → Json → Result ℕ
lifetime to_int j = if is_truthy j then to_int j else ok 3600

module _ (t : Transport) where
  unfoldable pub send : Call → Com Response
  send c s =
      (t.answer s.calls c, record s { clock = s.clock + t.elapsed s.calls c; calls = c ∷ s.calls })

  abbrev pub token_of : Response → Result Json
  token_of r =
      if is_error r then raised (failure "error_description" "error" r.document) else r.document

  -- `_fetch_oauth_token`. The token is used in a header only, and kept as the text that it has there.
  unfoldable pub fetch_oauth_token : String → String → String → Com (String × ℕ)
  unfolding send get
  fetch_oauth_token token_url client_id client_secret = do
    r ← send (token_post token_url client_id client_secret)
    body ← lift (token_of r)
    j ← lift (get body "access_token")
    token ← lift (if is_truthy j then ok (str t.repr j) else raised runtime_error)
    expires_in ← lift (get body "expires_in")
    n ← lift (lifetime t.to_int expires_in)
    lift (ok (token, n))

  abbrev pub keep_token : Result (String × ℕ) × ComState → Result String × ComState
  keep_token (raised e, s) = (raised e, s)
  keep_token (ok (token, expires_in), s) =
      (ok token, record s { token = token; expires_at = s.clock + (expires_in - 60) })

  -- `_TokenCache.get`; the lock makes it one step.
  unfoldable pub cached_token : Com (String × ℕ) → Com String
  cached_token fetch s =
      if truthy s.token && ltb s.clock s.expires_at then (ok s.token, s) else keep_token (fetch s)

  abbrev pub default_sso_token_url : String
  default_sso_token_url = "https://sso.common.cloud.hpe.com/as/token.oauth2"

  abbrev pub text_or : String → Option String → String
  text_or default none = default
  text_or default (some s) = s

  abbrev pub timeout_ok : Host → Result Bool
  timeout_ok h =
      if t.is_float (text_or "15" (h.env "COM_TIMEOUT")) then ok true else raised value_error

  abbrev pub pat_or_raise : Option String → Result String
  pat_or_raise pat = if is_set pat then ok (text_of pat) else raised runtime_error

  abbrev oauth_token : Host → Option String → Com String
  oauth_token h secret = do
    _ ← lift (timeout_ok h)
    cached_token (
        fetch_oauth_token (text_or default_sso_token_url (h.env "COM_SSO_TOKEN_URL"))
          (text_of (h.env "COM_CLIENT_ID")) (text_of secret))

  abbrev static_token : Host → Com String
  static_token h = do pat ← lift (get_secret h "COM_PAT" none false); lift (pat_or_raise pat)

  -- `_resolve_token`
  unfoldable pub resolve_token : Host → Com String
  unfolding get_secret fetch_oauth_token cached_token
  resolve_token h = do
    secret ← lift (get_secret h "COM_CLIENT_SECRET" none false)
    (if is_set (h.env "COM_CLIENT_ID") && is_set secret
        then oauth_token h secret
        else static_token h)

  -- `ComClient.__init__`
  unfoldable pub com_client : Host → Com Client
  unfolding resolve_token rstrip_char
  com_client h = do
    base ← lift (pat_or_raise (h.env "COM_BASE_URL"))
    bearer ← resolve_token h
    _ ← lift (timeout_ok h)
    lift (
        ok (record {
          base = rstrip_char b'/' base;
          bearer = bearer;
          tenant = text_of (h.env "COM_TENANT_ACID");
        }))

  -- The URL that `get` sends its request to, for a scheme found in the argument and the host of the
  -- base URL.
  abbrev pub same_host : String → Url → Url → Result String
  same_host url parsed base = if parsed.netloc == base.netloc then ok url else raised runtime_error

  -- `ComClient.get`
  unfoldable pub target_of : Client → String → Result String
  target_of c path_or_url = elim (t.urlparse path_or_url) [
    | raised e ↦ raised e
    | ok parsed ↦
        if truthy parsed.scheme
        then elim (t.urlparse c.base) [
          | raised e ↦ raised e
          | ok base ↦ same_host path_or_url parsed base
        ]
        else ok (c.base <> path_or_url)
  ]

  unfoldable pub get_resource : Client → String → List (String × String) → Com Json
  unfolding target_of send check
  get_resource c path_or_url params = do
    url ← lift (target_of c path_or_url)
    r ← send (get_request url params c.bearer c.tenant)
    lift (check r)

  unfoldable pub get_server : Client → String → String → Com Json
  unfolding get_resource
  get_server c server_id select =
      get_resource c ("/compute-ops-mgmt/v1/servers/" <> server_id)
        (if truthy select then ("select", select) ∷ [] else [])

  -- The argument that `get_firmware_bundle` passes to `get`.
  abbrev pub bundle_path : String → String
  bundle_path ref =
      if starts_with ref "/"
      then if starts_with ref "/compute-ops-mgmt/" then ref else "/compute-ops-mgmt" <> ref
      else "/compute-ops-mgmt/v1/firmware-bundles/" <> ref

  unfoldable pub get_firmware_bundle : Client → String → Com Json
  unfolding get_resource
  get_firmware_bundle c ref = do
    parsed ← lift (t.urlparse ref)
    get_resource c (if truthy parsed.scheme then ref else bundle_path ref) []

  abbrev pub page_of : ℕ → ℕ → List (String × String)
  page_of limit offset = ("limit", decimal limit) ∷ ("offset", decimal offset) ∷ []

  unfoldable pub list_groups : Client → ℕ → ℕ → Com Json
  unfolding get_resource
  list_groups c limit offset = get_resource c "/compute-ops-mgmt/v1/groups" (page_of limit offset)

  unfoldable pub get_group_compliance : Client → String → ℕ → ℕ → Com Json
  unfolding get_resource
  get_group_compliance c group_id limit offset =
      get_resource c ("/compute-ops-mgmt/v1/groups/" <> group_id <> "/compliance")
        (page_of limit offset)
