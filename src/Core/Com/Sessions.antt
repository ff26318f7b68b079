-- ===== src/Core/Com/Sessions.antt =====
-- A client that is constructed and then used: which calls that makes.
use hpe_com_event_integratio.Base.{
  ℕ, String, false, ◌≡◌, inl, inr, refl, truthy, ltb, ◌&&◌, Option, none, Bool-cases, if◌then◌else◌,
}
use hpe_com_event_integratio.Base.Text.{rstrip_char}
use hpe_com_event_integratio.Python.{str, Result, ok, raised, runtime_error, get, is_truthy}
use hpe_com_event_integratio.Core.Secrets.{Host, get_secret, is_set, text_of}
use hpe_com_event_integratio.Core.Com.{
  Call, token_post, Client, Transport, Com, ComState, and_then, ◌>>=◌, send, token_of, lifetime,
  fetch_oauth_token, keep_token, cached_token, text_or, default_sso_token_url, timeout_ok,
  pat_or_raise, oauth_token, static_token, resolve_token, com_client,
}
use hpe_com_event_integratio.Core.Com.Steps.{
  Keeps, Sent, >>=-Keeps, lift-Keeps, lift->>=-Keeps, send-Keeps, if-Keeps, OnOk, and_then-OnOk,
}

-- The base URL of every client.
abbrev pub home_of : Host → String
home_of h = rstrip_char b'/' (text_of (h.env "COM_BASE_URL"))

module _ (t : Transport) (h : Host) (P : Call → Type 0)
    (posts : (url id secret : String) → P (token_post url id secret)) where
  fetch_oauth_token-Keeps :
      (url id secret : String) → Keeps (Sent P) (fetch_oauth_token t url id secret)
  unfolding fetch_oauth_token
  fetch_oauth_token-Keeps url id secret =
      >>=-Keeps (Sent P) (send t (token_post url id secret)) _
        (send-Keeps P t (token_post url id secret) (posts url id secret))
        (λ r. lift->>=-Keeps (Sent P) (token_of t r) _ (λ body.
          lift->>=-Keeps (Sent P) (get body "access_token") _ (λ j.
            lift->>=-Keeps (Sent P)
              (if is_truthy j then ok (str t.repr j) else raised runtime_error) _
              (λ token.
                lift->>=-Keeps (Sent P) (get body "expires_in") _
                  (λ e. lift->>=-Keeps (Sent P) (lifetime t.to_int e) _ (λ n s k. k))))))

  keep_token-Sent : (r : Result (String × ℕ) × ComState) → Sent P r.1 → Sent P (keep_token t r).1
  keep_token-Sent (ok (token, n), s) k = k
  keep_token-Sent (raised e, s) k = k

  cached_token-Keeps :
      (fetch : Com (String × ℕ)) → Keeps (Sent P) fetch → Keeps (Sent P) (cached_token t fetch)
  unfolding cached_token
  cached_token-Keeps fetch hf s k = elim (Bool-cases (truthy s.token && ltb s.clock s.expires_at)) [
    | inl e ↦ rw e k
    | inr e ↦ rw e (keep_token-Sent (fetch s) (hf s k))
  ]

  oauth_token-Keeps : (secret : Option String) → Keeps (Sent P) (oauth_token t h secret)
  oauth_token-Keeps secret = lift->>=-Keeps (Sent P) (timeout_ok t h) _ (λ _. cached_token-Keeps _ (
      fetch_oauth_token-Keeps (text_or t (default_sso_token_url t) (h.env "COM_SSO_TOKEN_URL"))
        (text_of (h.env "COM_CLIENT_ID")) (text_of secret)))

  static_token-Keeps : Keeps (Sent P) (static_token t h)
  static_token-Keeps =
      lift->>=-Keeps (Sent P) (get_secret h "COM_PAT" none false) _
        (λ pat. lift-Keeps (Sent P) (pat_or_raise t pat))

  resolve_token-Keeps : Keeps (Sent P) (resolve_token t h)
  unfolding resolve_token
  resolve_token-Keeps =
      lift->>=-Keeps (Sent P) (get_secret h "COM_CLIENT_SECRET" none false) _ (λ secret.
        if-Keeps (Sent P) (is_set (h.env "COM_CLIENT_ID") && is_set secret) (oauth_token t h secret)
          (static_token t h) (oauth_token-Keeps secret) static_token-Keeps)

  com_client-Keeps : Keeps (Sent P) (com_client t h)
  unfolding com_client
  com_client-Keeps = lift->>=-Keeps (Sent P) (pat_or_raise t (h.env "COM_BASE_URL")) _ (λ base.
      >>=-Keeps (Sent P) (resolve_token t h) _ resolve_token-Keeps
        (λ bearer. lift->>=-Keeps (Sent P) (timeout_ok t h) _ (λ _ s k. k)))

  abbrev IsHomed : Client → Type 0
  IsHomed c = c.base ≡ home_of h

  com_client-IsHomed : (s : ComState) → OnOk IsHomed (com_client t h s)
  unfolding com_client
  com_client-IsHomed s = elim (Bool-cases (is_set (h.env "COM_BASE_URL"))) [
    | inr e ↦ rw e tt
    | inl e ↦ rw e (
        and_then-OnOk IsHomed _
          (λ bearer s1. and_then-OnOk IsHomed _ (λ _ s2. refl) (timeout_ok t h, s1))
          (resolve_token t h s))
  ]

  used-Sent {ℓ} :
      {A : Type ℓ} (f : Client → Com A)
      → ((c : Client) → c.base ≡ home_of h → Keeps (Sent P) (f c))
      → (r : Result Client × ComState) → OnOk IsHomed r
      → Sent P r.1
      → Sent P (and_then f r).1
  used-Sent f hf (ok c, s) homed k = hf c homed s k
  used-Sent f hf (raised e, s) homed k = k

  -- A client is only used with the base URL of the environment.
  pub com_client->>=-Keeps {ℓ} :
      {A : Type ℓ} (f : Client → Com A)
      → ((c : Client) → c.base ≡ home_of h → Keeps (Sent P) (f c))
      → Keeps (Sent P) (com_client t h >>= f)
  com_client->>=-Keeps f hf s k =
      used-Sent f hf (com_client t h s) (com_client-IsHomed s) (com_client-Keeps s k)
