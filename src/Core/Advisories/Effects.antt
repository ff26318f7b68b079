-- ===== src/Core/Advisories/Effects.antt =====
-- What the enrichment with advisories can change, and where it asks.
use hpe_com_event_integratio.Base.{
  String, List, ◌++◌, Option, none, some, ◌≡◌, refl, ap, All, if◌then◌else◌,
}
use mathlib.Core.Path.{subst}
use hpe_com_event_integratio.Python.{
  Json, object, end, text, Result, ok, is_truthy, get, as_text, str, ◌or◌,
}
use hpe_com_event_integratio.Core.Event.{CanonicalEvent}
use hpe_com_event_integratio.Core.Com.{Step, Com, Client, ◌>>=◌, lift, attempt, com_client}
use hpe_com_event_integratio.Core.Com.Steps.{
  Keeps, Sent, >>=-Keeps, lift->>=-Keeps, attempt-Keeps, if-Keeps,
}
use hpe_com_event_integratio.Core.Com.Hosts.{
  GoesHome, get_server-GoesHome, get_firmware_bundle-GoesHome,
}
use hpe_com_event_integratio.Core.Com.Sessions.{home_of, com_client->>=-Keeps}
use hpe_com_event_integratio.Core.Compliance.Calls.{resolve_compliance-GoesHome}
use hpe_com_event_integratio.Core.Advisories.{relevant}
use hpe_com_event_integratio.Core.Advisories.Bundle.{bundle_ref_in, ref_text, bundle_info}
use hpe_com_event_integratio.Core.Advisories.Source.{fetch_and_parse_advisories}
use hpe_com_event_integratio.Core.Advisories.Lookup.{
  Advisories, Setup, State, on_com, cached_advisories, put_advisories, cached_compliance,
  put_compliance, looked_up, ask_server, from_server, resolve_bundle_ref, ask_bundle, parsed_page,
  read_bundle, fetch, ask_compliance, joined, fresh_compliance, compliance_for, compliance_of_event,
  evidence_of, and_resolved, set_evidence, set_references, apply, attach, remember, or_fetch,
  enrich_with, enrich,
}

-- The same event but for the two fields of the enricher.
abbrev pub IsAnnotated : CanonicalEvent → CanonicalEvent → Type 0
IsAnnotated e e' =
    (evidence : Json) × (references : List Json) × (e'
      ≡ record e { advisory_evidence = evidence; advisory_references = references })

-- So far only these fields were set, and only COM was asked: each GET went to the host of the base URL
-- or to a path of the service under it.
abbrev pub IsBenign : Setup → CanonicalEvent → State → Type 0
IsBenign c e s = IsAnnotated e s.event × All (GoesHome c.transport (home_of c.host)) s.session.calls

module _ (c : Setup) (e : CanonicalEvent) where
  abbrev Benign : {A : Type 0} → Step State A → Type 0
  Benign m = Keeps (IsBenign c e) m

  on_com-Benign :
      {A : Type 0} (m : Com A)
      → Keeps (Sent (GoesHome c.transport (home_of c.host))) m
      → Benign (on_com m)
  on_com-Benign m hm s (same, calls) = (same, hm s.session calls)

  set_evidence-Benign : (evidence : Json) → Benign (set_evidence c evidence)
  unfolding set_evidence
  set_evidence-Benign evidence s ((evidence0, refs, same), calls) = (
    (
      evidence,
      refs,
      ap {A = CanonicalEvent} {B = CanonicalEvent}
          (λ e1. record e1 { advisory_evidence = evidence }) same,
    ),
    calls,
  )

  set_references-Benign : (refs : List Json) → Benign (set_references c refs)
  unfolding set_references
  set_references-Benign refs s ((evidence, refs0, same), calls) = (
    (
      evidence,
      refs,
      ap {A = CanonicalEvent} {B = CanonicalEvent} (λ e1. record e1 { advisory_references = refs })
          same,
    ),
    calls,
  )

  cached_advisories-Benign : (ref : String) → Benign (cached_advisories c ref)
  unfolding cached_advisories
  cached_advisories-Benign ref s h = h

  cached_compliance-Benign : (id : String) → Benign (cached_compliance c id)
  unfolding cached_compliance
  cached_compliance-Benign id s h = h

  put_advisories-Benign : (ref : String) (found : Advisories) → Benign (put_advisories c ref found)
  unfolding put_advisories
  put_advisories-Benign ref found s h = h

  put_compliance-Benign : (id : String) (found : Option Json) → Benign (put_compliance c id found)
  unfolding put_compliance
  put_compliance-Benign id none s h = h
  put_compliance-Benign id (some j) s h = h

  -- With a client for the base URL of the environment.
  ask-Benign :
      {A : Type 0} (f : Client → Com A)
      → ((k : Client) → Keeps (Sent (GoesHome c.transport k.base)) (f k))
      → Benign (attempt (on_com (com_client c.transport c.host >>= f)))
  ask-Benign f hf =
      let ask = com_client c.transport c.host >>= f in
      attempt-Keeps (IsBenign c e) (on_com ask) (
        on_com-Benign ask (
          com_client->>=-Keeps c.transport c.host (GoesHome c.transport (home_of c.host))
            (λ _ _ _. tt) f
            (λ k homed. subst (λ b. Keeps (Sent (GoesHome c.transport b)) (f k)) homed (hf k))))

  lifted {ℓ} :
      {A : Type ℓ} {B : Type 0} (r : Result A) (f : A → Step State B)
      → ((x : A) → Benign (f x))
      → Benign (lift r >>= f)
  lifted r f hf = lift->>=-Keeps (IsBenign c e) r f hf

  ask_server-Benign : (id : String) → Benign (attempt (on_com (ask_server c id)))
  ask_server-Benign id = ask-Benign _ (λ k. get_server-GoesHome c.transport k id _)

  looked_up-Benign : (server : Option Json) → Benign (looked_up c server)
  looked_up-Benign none = λ s h. h
  looked_up-Benign (some server) = lifted (bundle_ref_in server) _ (λ ref s h. h)

  from_server-Benign : (id : Json) → Benign (from_server c id)
  from_server-Benign id =
      if-Keeps (IsBenign c e) (is_truthy id) _ (lift (ok none))
        (>>=-Keeps (IsBenign c e) (attempt (on_com (ask_server c (str c.transport.repr id)))) _
          (ask_server-Benign (str c.transport.repr id)) looked_up-Benign)
        (λ s h. h)

  resolve_bundle_ref-Benign : (event : CanonicalEvent) → Benign (resolve_bundle_ref c event)
  unfolding resolve_bundle_ref
  resolve_bundle_ref-Benign event = lifted (bundle_ref_in (event.raw or object end)) _ (λ ref.
      lifted (get (event.raw or object end) "id") _ (λ id.
        if-Keeps (IsBenign c e) (is_truthy ref) (lift (ref_text ref)) _ (λ s h. h)
          (from_server-Benign (id or text event.event_id))))

  parsed_page-Benign : (url : Json) → Benign (parsed_page c url)
  parsed_page-Benign url =
      if-Keeps (IsBenign c e) (is_truthy url)
        (attempt (lift (as_text url) >>= λ u. lift (fetch_and_parse_advisories c.web u)))
        (lift (ok none))
        (attempt-Keeps (IsBenign c e)
          (lift (as_text url) >>= λ u. lift (fetch_and_parse_advisories c.web u))
          (lifted (as_text url) _ (λ u s h. h)))
        (λ s h. h)

  read_bundle-Benign : (bundle : Option Json) → Benign (read_bundle c bundle)
  read_bundle-Benign none = λ s h. h
  read_bundle-Benign (some bundle) = lifted (get bundle "advisories") _ (λ url.
      lifted (bundle_info bundle) _ (λ info.
        >>=-Keeps (IsBenign c e) (parsed_page c url) _ (parsed_page-Benign url) (λ parsed s h. h)))

  fetch-Benign : (ref : String) → Benign (fetch c ref)
  unfolding fetch
  fetch-Benign ref =
      >>=-Keeps (IsBenign c e) (attempt (on_com (ask_bundle c ref))) _
        (ask-Benign _ (λ k. get_firmware_bundle-GoesHome c.transport k ref)) read_bundle-Benign

  fresh_compliance-Benign :
      (id : String) (known : Option Json) → Benign (fresh_compliance c id known)
  fresh_compliance-Benign id (some j) = λ s h. h
  fresh_compliance-Benign id none =
      >>=-Keeps (IsBenign c e) (attempt (on_com (ask_compliance c id))) _
        (ask-Benign _ (λ k. resolve_compliance-GoesHome c.transport k id))
        (λ answer.
          >>=-Keeps (IsBenign c e) (put_compliance c id (joined c answer)) _
            (put_compliance-Benign id (joined c answer)) (λ _ s h. h))

  compliance_for-Benign : (id : Json) → Benign (compliance_for c id)
  compliance_for-Benign id =
      if-Keeps (IsBenign c e) (is_truthy id) _ (lift (ok none))
        (lifted (as_text id) _ (λ device_id.
          >>=-Keeps (IsBenign c e) (cached_compliance c device_id) _
            (cached_compliance-Benign device_id) (fresh_compliance-Benign device_id)))
        (λ s h. h)

  compliance_of_event-Benign : (event : CanonicalEvent) → Benign (compliance_of_event c event)
  unfolding compliance_of_event
  compliance_of_event-Benign event =
      lifted (get (event.raw or object end) "id") _
        (λ id. compliance_for-Benign (id or text event.event_id))

  apply-Benign :
      (event : CanonicalEvent) (found : Advisories) (compliance : Option Json)
      → Benign (apply c event found compliance)
  unfolding apply
  apply-Benign event found compliance =
      >>=-Keeps (IsBenign c e) {B = Unit {0}} (set_evidence c (evidence_of c found compliance))
        (λ _. lift (relevant event found.open_cas "open") >>= and_resolved c event found)
        (set_evidence-Benign (evidence_of c found compliance))
        (λ _.
          lifted {B = Unit {0}} (relevant event found.open_cas "open") (and_resolved c event found)
            (λ open_refs.
              lifted {B = Unit {0}} (relevant event found.resolved_cas "resolved")
                (λ resolved_refs. set_references c (open_refs ++ resolved_refs))
                (λ resolved_refs. set_references-Benign (open_refs ++ resolved_refs))))

  attach-Benign :
      (event : CanonicalEvent) (found : Option Advisories) → Benign (attach c event found)
  attach-Benign event none = λ s h. h
  attach-Benign event (some found) =
      >>=-Keeps (IsBenign c e)
        (if c.check_compliance then compliance_of_event c event else lift (ok none)) _
        (if-Keeps (IsBenign c e) c.check_compliance (compliance_of_event c event) (lift (ok none))
          (compliance_of_event-Benign event) (λ s h. h))
        (apply-Benign event found)

  remember-Benign : (ref : String) (found : Option Advisories) → Benign (remember c ref found)
  remember-Benign ref none = λ s h. h
  remember-Benign ref (some found) =
      >>=-Keeps (IsBenign c e) (put_advisories c ref found) _ (put_advisories-Benign ref found)
        (λ _ s h. h)

  or_fetch-Benign : (ref : String) (known : Option Advisories) → Benign (or_fetch c ref known)
  or_fetch-Benign ref (some found) = λ s h. h
  or_fetch-Benign ref none =
      >>=-Keeps (IsBenign c e) (fetch c ref) _ (fetch-Benign ref) (remember-Benign ref)

  enrich_with-Benign :
      (event : CanonicalEvent) (ref : Option String) → Benign (enrich_with c event ref)
  enrich_with-Benign event none = λ s h. h
  enrich_with-Benign event (some ref) =
      >>=-Keeps (IsBenign c e) (cached_advisories c ref) _ (cached_advisories-Benign ref) (λ cached.
        >>=-Keeps (IsBenign c e) (or_fetch c ref cached) _ (or_fetch-Benign ref cached)
          (attach-Benign event))

-- Whatever COM answers, and also where the enricher raises, it changes nothing of the event but the two
-- fields for advisories; and if all GET requests that COM clients made before went to the host of the
-- base URL or to a path of the service under it, then so do those that this one's clients make. The
-- pages of advisories are fetched without a COM client, from wherever a bundle says, and are no part
-- of this.
pub enrich-IsBenign :
    (c : Setup) (s : State)
    → All (GoesHome c.transport (home_of c.host)) s.session.calls
    → IsBenign c s.event (enrich c s).1
unfolding enrich
enrich-IsBenign c s calls =
    >>=-Keeps (IsBenign c s.event) (resolve_bundle_ref c s.event) _
      (resolve_bundle_ref-Benign c s.event s.event) (enrich_with-Benign c s.event s.event) s
      ((s.event.advisory_evidence, s.event.advisory_references, refl), calls)
