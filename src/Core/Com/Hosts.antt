-- ===== src/Core/Com/Hosts.antt =====
-- Where the token is sent.
use hpe_com_event_integratio.Base.{
  String, ◌<>◌, true, List, [], ◌≡◌, ◌⊎◌, inl, inr, arith, truthy, starts_with, Bool-cases, eq_iff,
  ◌==◌,
}
use text.Mathlib.TextEquality.{starts_with_iff}
use text.Mathlib.TextPositions.{starts_with-append}
use hpe_com_event_integratio.Base.TextLaws.{append_assoc}
use hpe_com_event_integratio.Python.{ok, Result-cases}
use hpe_com_event_integratio.Core.Com.{
  Call, token_post, get_request, Url, Client, Transport, send, check, target_of, get_resource,
  get_server, get_firmware_bundle, bundle_path, same_host,
}
use hpe_com_event_integratio.Core.Com.Steps.{Keeps, Sent, >>=-Keeps, lift-Keeps, send-Keeps}

module _ (t : Transport) (home : String) where
  -- The URL has the host of the base URL.
  abbrev pub HasHost : String → Type 0
  HasHost url =
      (parsed : Url) × (base : Url) × (t.urlparse url ≡ ok parsed)
      × (t.urlparse home ≡ ok base)
      × (parsed.netloc ≡ base.netloc)

  -- The URL has the host of the base URL, or is the base URL with a path of the service behind it.
  abbrev pub IsHome : String → Type 0
  IsHome url =
      HasHost url
      ⊎ ((path : String) × (url ≡ home <> path) × (starts_with path "/compute-ops-mgmt/" ≡ true))

  abbrev pub GoesHome : Call → Type 0
  GoesHome (token_post _ _ _) = Unit
  GoesHome (get_request url params bearer tenant) = IsHome url

module _ (t : Transport) (c : Client) where
  same_host-HasHost :
      (ref url : String) (parsed base : Url)
      → t.urlparse ref ≡ ok parsed
      → t.urlparse c.base ≡ ok base
      → same_host t ref parsed base ≡ ok url
      → HasHost t c.base url
  same_host-HasHost ref url parsed base p b h = elim (Bool-cases (parsed.netloc == base.netloc)) [
    | inl e ↦
        let same : ref ≡ url = ground (arith, h, e) in
        rw (← same) (parsed, base, p, b, (eq_iff parsed.netloc base.netloc).0 e)
    | inr e ↦ absurd (ground (arith, h, e))
  ]

  -- `get` asks the host of the base URL, or the base URL followed by its argument.
  pub target_of-home :
      (ref url : String) → target_of t c ref ≡ ok url → HasHost t c.base url ⊎ (url ≡ c.base <> ref)
  unfolding target_of
  target_of-home ref url h = elim (Result-cases (t.urlparse ref)) [
    | inr (x, p) ↦ absurd (ground (arith, h, p))
    | inl (parsed, p) ↦ elim (Bool-cases (truthy parsed.scheme)) [
      | inr e ↦ inr (ground (arith, h, p, e))
      | inl e ↦ elim (Result-cases (t.urlparse c.base)) [
        | inr (x, b) ↦ absurd (ground (arith, h, p, e, b))
        | inl (base, b) ↦
            inl (same_host-HasHost ref url parsed base p b (ground (arith, h, p, e, b)))
      ]
    ]
  ]

  -- With a scheme in the argument only the first is left.
  target_of-HasHost :
      (ref url : String) (parsed : Url)
      → t.urlparse ref ≡ ok parsed
      → truthy parsed.scheme ≡ true
      → target_of t c ref ≡ ok url
      → HasHost t c.base url
  unfolding target_of
  target_of-HasHost ref url parsed p e h = elim (Result-cases (t.urlparse c.base)) [
    | inr (x, b) ↦ absurd (ground (arith, h, p, e, b))
    | inl (base, b) ↦ same_host-HasHost ref url parsed base p b (ground (arith, h, p, e, b))
  ]

  pub get_resource-GoesHome :
      (ref : String) (params : List (String × String))
      → ((url : String) → target_of t c ref ≡ ok url → IsHome t c.base url)
      → Keeps (Sent (GoesHome t c.base)) (get_resource t c ref params)
  unfolding get_resource
  get_resource-GoesHome ref params home s h = elim (Result-cases (target_of t c ref)) [
    | inr (x, e) ↦ rw e h
    | inl (url, e) ↦ rw e (
        let call : Call = get_request url params c.bearer c.tenant in
        >>=-Keeps (Sent (GoesHome t c.base)) (send t call) _
          (send-Keeps (GoesHome t c.base) t call (home url e))
          (λ r. lift-Keeps (Sent (GoesHome t c.base)) (check r)) s h)
  ]

  pub service_path-GoesHome :
      (path : String) (params : List (String × String))
      → starts_with path "/compute-ops-mgmt/" ≡ true
      → Keeps (Sent (GoesHome t c.base)) (get_resource t c path params)
  service_path-GoesHome path params e = get_resource-GoesHome path params (λ url h.
      elim (target_of-home path url h) [ inl host ↦ inl host | inr same ↦ inr (path, same, e) ])

  mount-prefix :
      (ref : String)
      → starts_with ref "/" ≡ true
      → starts_with ("/compute-ops-mgmt" <> ref) "/compute-ops-mgmt/" ≡ true
  mount-prefix ref h =
      let (rest, same) = (starts_with_iff ref "/").0 h in
      rw (← same, ← append_assoc "/compute-ops-mgmt" "/" rest)
        (starts_with-append "/compute-ops-mgmt/" rest)

  bundle_path-prefix : (ref : String) → starts_with (bundle_path t ref) "/compute-ops-mgmt/" ≡ true
  bundle_path-prefix ref = elim (Bool-cases (starts_with ref "/")) [
    | inr e ↦
        rw (e, append_assoc "/compute-ops-mgmt/" "v1/firmware-bundles/" ref)
          (starts_with-append "/compute-ops-mgmt/" ("v1/firmware-bundles/" <> ref))
    | inl e ↦ elim (Bool-cases (starts_with ref "/compute-ops-mgmt/")) [
      | inl m ↦ rw (e, m) m
      | inr m ↦ rw (e, m) (mount-prefix ref e)
    ]
  ]

  -- Whatever reference the payload of an event names, every request for a firmware bundle goes to the
  -- host of the base URL or to a path of the service under the base URL.
  pub get_firmware_bundle-GoesHome :
      (ref : String) → Keeps (Sent (GoesHome t c.base)) (get_firmware_bundle t c ref)
  unfolding get_firmware_bundle
  get_firmware_bundle-GoesHome ref s h = elim (Result-cases (t.urlparse ref)) [
    | inr (x, p) ↦ rw p h
    | inl (parsed, p) ↦ rw p (elim (Bool-cases (truthy parsed.scheme)) [
      | inl e ↦
          rw e (
            get_resource-GoesHome ref [] (λ url u. inl (target_of-HasHost ref url parsed p e u)) s
              h)
      | inr e ↦ rw e (service_path-GoesHome (bundle_path t ref) [] (bundle_path-prefix ref) s h)
    ])
  ]

  pub get_server-GoesHome :
      (server_id select : String)
      → Keeps (Sent (GoesHome t c.base)) (get_server t c server_id select)
  unfolding get_server
  get_server-GoesHome server_id select =
      service_path-GoesHome ("/compute-ops-mgmt/v1/servers/" <> server_id) _ (
        rw (append_assoc "/compute-ops-mgmt/" "v1/servers/" server_id)
          (starts_with-append "/compute-ops-mgmt/" ("v1/servers/" <> server_id)))
