-- ===== src/Core/Com/Tokens.antt =====
-- How often the token endpoint is called.
use hpe_com_event_integratio.Base.{
  ℕ, ◌+◌, ◌-◌, ◌<◌, String, true, false, List, [], ◌∷◌, ◌≡◌, ◌&&◌, refl, arith, All, truthy, ltb,
}
use hpe_com_event_integratio.Python.{Result, ok}
use hpe_com_event_integratio.Core.Com.{Com, ComState, Call, Transport, cached_token}

module _ (t : Transport) where
  -- One use after the other, each with the time that passes before it and its own way to fetch.
  abbrev pub get_all : List (ℕ × Com (String × ℕ)) → ComState → List (Result String) × ComState
  get_all [] s = ([], s)
  get_all ((wait, fetch) ∷ uses) s =
      let (r, s1) = cached_token t fetch (record s { clock = s.clock + wait }) in
      let (rs, s2) = get_all uses s1 in (r ∷ rs, s2)

  abbrev pub total_wait : List (ℕ × Com (String × ℕ)) → ℕ
  total_wait [] = 0
  total_wait ((wait, fetch) ∷ uses) = wait + total_wait uses

  abbrev pub AllGet : String → List Call → List (Result String) × ComState → Type 0
  AllGet token calls r = All (λ got. got ≡ ok token) r.0 × (r.1.calls ≡ calls)

  cached_token-hit :
      (fetch : Com (String × ℕ)) (s : ComState)
      → truthy s.token ≡ true
      → s.clock < s.expires_at
      → cached_token t fetch s ≡ (ok s.token, s)
  unfolding cached_token
  cached_token-hit fetch s h late = ground arith

  get_all-AllGet :
      (uses : List (ℕ × Com (String × ℕ))) (s : ComState)
      → truthy s.token ≡ true
      → s.clock + total_wait uses < s.expires_at
      → AllGet s.token s.calls (get_all uses s)
  get_all-AllGet [] s h late = (tt, refl)
  get_all-AllGet ((wait, fetch) ∷ uses) s h late =
      let s1 : ComState = record s { clock = s.clock + wait } in
      let (others, calls) = get_all-AllGet uses s1 h (omega (arith, late)) in
      rw (cached_token-hit fetch s1 h (omega (arith, late))) ((refl, others), calls)

  -- A token that was fetched serves every use within its lifetime less a minute: they all get this
  -- token, and the token endpoint is not called again.
  pub cached_token-reused :
      (fetch : Com (String × ℕ)) (s s1 : ComState) (token : String) (n : ℕ)
      (uses : List (ℕ × Com (String × ℕ)))
      → (truthy s.token && ltb s.clock s.expires_at) ≡ false
      → fetch s ≡ (ok (token, n), s1)
      → truthy token ≡ true
      → total_wait uses < n - 60
      → ((cached_token t fetch s).0 ≡ ok token)
        × AllGet token s1.calls (get_all uses (cached_token t fetch s).1)
  unfolding cached_token
  cached_token-reused fetch s s1 token n uses stale got h late =
      rw (stale, got)
        (
          refl,
          get_all-AllGet uses (record s1 { token = token; expires_at = s1.clock + (n - 60) }) h
              (omega (arith, late)),
        )
