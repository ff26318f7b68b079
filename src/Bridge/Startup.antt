-- ===== src/Bridge/Startup.antt =====
-- com-event-bridge/bridge/app.py: what the module checks before it serves. The construction of an adapter
-- and of an enricher is a parameter; opening the de-duplication store is left out.
use hpe_com_event_integratio.Base.{
  ℕ, String, true, List, [], ◌∷◌, Option, none, some, ◌≡◌, ◌⊎◌, ◌==◌, not, ◌||◌, ◌&&◌, arith, inl,
  inr, refl, ap, if◌then◌else◌,
}
use hpe_com_event_integratio.Base.Text.{lower, strip}
use hpe_com_event_integratio.Python.{Result, ok, raised, value_error, ◌>>=◌}
use hpe_com_event_integratio.Core.Secrets.{Host, get_secret, is_set}
use hpe_com_event_integratio.Core.Enrich.{Enricher, get_enrichers}
use hpe_com_event_integratio.Core.Normalize.Lifecycle.{>>=-Returns}

-- The parts that start-up leaves behind.
pub record Started {ℓ} (A : Type ℓ) : Type ℓ where
  pub com_secret : Option String
  pub secret_header : String
  pub max_body_bytes : ℕ
  pub delivery_mode : String
  pub adapters : List A
  pub enrichers : List Enricher

abbrev or_default : String → Option String → String
or_default default none = default
or_default default (some s) = s

-- `DELIVERY_MODE`
unfoldable pub mode_of : Host → String
unfolding lower strip
mode_of h = lower (strip (or_default "spool" (h.env "DELIVERY_MODE")))

abbrev check_mode : String → Result (Unit {0})
check_mode mode = if mode == "sync" || mode == "spool" then ok tt else raised value_error

abbrev check_spool_path : Host → String → Result (Unit {0})
check_spool_path h mode =
    if mode == "spool" && not (is_set (h.env "SPOOL_PATH")) then raised value_error else ok tt

abbrev check_enrichers : List Enricher → String → Result (Unit {0})
check_enrichers [] mode = ok tt
check_enrichers (e ∷ es) mode = if mode == "sync" then raised value_error else ok tt

module _ {ℓ} {A : Type ℓ} (to_int : String → Result ℕ) (get_adapters : Result (List A))
    (construct : String → Result Enricher) where
  unfoldable pub start : Host → Result (Started A)
  unfolding mode_of get_secret lower get_enrichers
  start h = do
    secret ← get_secret h "COM_SHARED_SECRET" none true
    max_body ← to_int (or_default "262144" (h.env "MAX_BODY_BYTES"))
    _ ← check_mode (mode_of h)
    _ ← check_spool_path h (mode_of h)
    adapters ← get_adapters
    enrichers ← get_enrichers construct (or_default "" (h.env "ENRICHERS"))
    _ ← check_enrichers enrichers (mode_of h)
    ok (record {
      com_secret = secret;
      secret_header = lower (or_default "x-shim-secret" (h.env "SHARED_SECRET_HEADER"));
      max_body_bytes = max_body;
      delivery_mode = mode_of h;
      adapters = adapters;
      enrichers = enrichers;
    })

spool_path-checked :
    (h : Host) (mode : String)
    → check_mode mode ≡ ok tt
    → check_spool_path h mode ≡ ok tt
    → ((mode == "sync") ≡ true)
      ⊎ (((mode == "spool") ≡ true) × (is_set (h.env "SPOOL_PATH") ≡ true))
spool_path-checked h mode m p = ground (arith, m, p)

enrichers-checked :
    (enrichers : List Enricher) (mode : String)
    → check_enrichers enrichers mode ≡ ok tt
    → (mode == "sync") ≡ true
    → enrichers ≡ []
enrichers-checked [] mode c s = refl
enrichers-checked (e ∷ es) mode c s = absurd (ground (arith, c, s))

mode_in {ℓ} : {A : Type ℓ} → String → Result (Started A) → String
mode_in default (ok st) = st.delivery_mode
mode_in default (raised e) = default

enrichers_in {ℓ} : {A : Type ℓ} → Result (Started A) → List Enricher
enrichers_in (ok st) = st.enrichers
enrichers_in (raised e) = []

-- A bridge that has started delivers either while COM waits, and then it has no enricher, or from a
-- spool, and then the path of the spool is set.
pub start-IsSafe {ℓ} :
    {A : Type ℓ} (to_int : String → Result ℕ) (get_adapters : Result (List A))
    (construct : String → Result Enricher) (h : Host) (st : Started A)
    → start to_int get_adapters construct h ≡ ok st
    → (((st.delivery_mode == "sync") ≡ true) × (st.enrichers ≡ []))
      ⊎ (((st.delivery_mode == "spool") ≡ true) × (is_set (h.env "SPOOL_PATH") ≡ true))
unfolding start mode_in enrichers_in
start-IsSafe to_int get_adapters construct h st started =
    let mode : String = mode_of h in
    let (secret, s, h1) = >>=-Returns (get_secret h "COM_SHARED_SECRET" none true) _ started in
    let (max_body, b, h2) =
      >>=-Returns (to_int (or_default "262144" (h.env "MAX_BODY_BYTES"))) _ h1 in
    let (_, m, h3) = >>=-Returns (check_mode mode) _ h2 in
    let (_, p, h4) = >>=-Returns (check_spool_path h mode) _ h3 in
    let (adapters, a, h5) = >>=-Returns get_adapters _ h4 in
    let (enrichers, e, h6) =
      >>=-Returns (get_enrichers construct (or_default "" (h.env "ENRICHERS"))) _ h5 in
    let (_, c, h7) = >>=-Returns (check_enrichers enrichers mode) _ h6 in
    let mode_is : mode ≡ st.delivery_mode = ap (λ r. mode_in mode r) h7 in
    let enrichers_are : enrichers ≡ st.enrichers = ap (λ r. enrichers_in r) h7 in
    rw (← mode_is, ← enrichers_are)
      (elim (spool_path-checked h mode m p) [
        | inl sync ↦ inl (sync, enrichers-checked enrichers mode c sync)
        | inr spool ↦ inr spool
      ])
