-- ===== src/Core/Adapters/Closing.antt =====
-- A problem and its recovery at the targets.
use hpe_com_event_integratio.Base.{
  String, true, false, List, ◌≡◌, ◌≢◌, refl, sym, ◌∙◌, ap, arith, eq_iff, ◌==◌, if◌then◌else◌,
}
use hpe_com_event_integratio.Base.Text.{truthy}
use hpe_com_event_integratio.Python.{Json, text, ok, get}
use hpe_com_event_integratio.Core.Event.{
  CanonicalEvent, Action, raise, clear, Severity, normal, warning, minor, major, critical,
}
use hpe_com_event_integratio.Core.Render.{Formats}
use hpe_com_event_integratio.Core.Adapters.{fields, external_key, is_clear}
use hpe_com_event_integratio.Core.Adapters.Alerts.{ops_state, to_obm, to_alert, to_pager_event}
use hpe_com_event_integratio.Core.Adapters.Incidents.{severity_num, to_snow_event}
use hpe_com_event_integratio.Core.Adapters.Monitoring.{alert_type, to_datadog_event}

-- A problem and its recovery, under one correlation key.
pub record IsPair (e c : CanonicalEvent) : Type 0 where
  pub keyed : truthy e.correlation_key ≡ true
  pub same_key : e.correlation_key ≡ c.correlation_key
  pub raises : e.action ≡ raise
  pub clears : c.action ≡ clear

-- Two documents for a target: they agree on the key, and the second one alone says that the problem
-- is over.
abbrev pub Closes : String → String → String → Json → Json → Type 0
Closes key state over a b =
    (get a key ≡ get b key) × (get a state ≢ ok (text over)) × (get b state ≡ ok (text over))

pub keyed-external_key :
    (e : CanonicalEvent) → truthy e.correlation_key ≡ true → external_key e ≡ e.correlation_key
keyed-external_key e h = rw h refl

pair-external_key : (e c : CanonicalEvent) → IsPair e c → external_key e ≡ external_key c
pair-external_key e c h =
    keyed-external_key e h.keyed
    ∙ h.same_key
    ∙ sym (keyed-external_key c (sym (ap truthy h.same_key) ∙ h.keyed))

text_inj : (s t : String) → ok (text s) ≡ ok (text t) → s ≡ t
text_inj s t e = cc

pair-Closes :
    (key state over s : String) (e c : CanonicalEvent) (a b : Json)
    → IsPair e c
    → (get a key ≡ ok (text (external_key e))) × (get a state ≡ ok (text s))
    → (get b key ≡ ok (text (external_key c))) × (get b state ≡ ok (text over))
    → (s == over) ≡ false
    → Closes key state over a b
pair-Closes key state over s e c a b h x y n = (
  rw (x.0, y.0, pair-external_key e c h) refl,
  λ same. absurd (ground (arith, eq_iff s over, text_inj s over (sym x.1 ∙ same))),
  y.1,
)

obm-entries :
    (f : Formats) (e : CanonicalEvent) (a : Json)
    → to_obm f e ≡ ok a
    → (get a "dedup_key" ≡ ok (text (external_key e)))
      × (get a "lifecycle_state" ≡ ok (text (if is_clear e.action then "closed" else "open")))
unfolding to_obm get fields
obm-entries f e a x = ground arith

-- OBM is sent a problem and its recovery under one key, the recovery alone as closed.
to_obm-Closes :
    (f : Formats) (e c : CanonicalEvent) (a b : Json)
    → IsPair e c
    → to_obm f e ≡ ok a
    → to_obm f c ≡ ok b
    → Closes "dedup_key" "lifecycle_state" "closed" a b
to_obm-Closes f e c a b h x y =
    pair-Closes "dedup_key" "lifecycle_state" "closed" "open" e c a b h
      (rw h.raises at (obm-entries f e a x)) (rw h.clears at (obm-entries f c b y)) refl

pub pager-entries :
    (routing_key source : String) (e : CanonicalEvent) (action : Action)
    → e.action ≡ action
    → let a = to_pager_event routing_key source e in
      (get a "dedup_key" ≡ ok (text (external_key e)))
      × (get a "event_action" ≡ ok (text (if is_clear action then "resolve" else "trigger")))
unfolding to_pager_event get fields
pager-entries routing_key source e action h =
    (refl, ap (λ act. ok (text (if is_clear act then "resolve" else "trigger"))) h)

-- PagerDuty is sent a problem and its recovery under one key, the recovery alone to resolve it.
to_pager_event-Closes :
    (routing_key source : String) (e c : CanonicalEvent)
    → IsPair e c
    → Closes "dedup_key" "event_action" "resolve"
        (to_pager_event routing_key source e)
        (to_pager_event routing_key source c)
to_pager_event-Closes routing_key source e c h =
    pair-Closes "dedup_key" "event_action" "resolve" "trigger" e c _ _ h
      (pager-entries routing_key source e raise h.raises)
      (pager-entries routing_key source c clear h.clears) refl

datadog-entries :
    (f : Formats) (tags : List String) (e : CanonicalEvent) (a : Json)
    → to_datadog_event f tags e ≡ ok a
    → (get a "aggregation_key" ≡ ok (text (external_key e)))
      × (get a "alert_type"
          ≡ ok (text (if is_clear e.action then "success" else alert_type e.severity)))
unfolding to_datadog_event get fields
datadog-entries f tags e a x = ground arith

alert_type-open : (s : Severity) → (alert_type s == "success") ≡ false
alert_type-open normal = refl
alert_type-open warning = refl
alert_type-open minor = refl
alert_type-open major = refl
alert_type-open critical = refl

-- Datadog is sent a problem and its recovery under one key, the recovery alone as a success.
to_datadog_event-Closes :
    (f : Formats) (tags : List String) (e c : CanonicalEvent) (a b : Json)
    → IsPair e c
    → to_datadog_event f tags e ≡ ok a
    → to_datadog_event f tags c ≡ ok b
    → Closes "aggregation_key" "alert_type" "success" a b
to_datadog_event-Closes f tags e c a b h x y =
    pair-Closes "aggregation_key" "alert_type" "success" (alert_type e.severity) e c a b h
      (rw h.raises at (datadog-entries f tags e a x))
      (rw h.clears at (datadog-entries f tags c b y)) (alert_type-open e.severity)

snow-entries :
    (f : Formats) (e : CanonicalEvent) (a : Json)
    → to_snow_event f e ≡ ok a
    → (get a "message_key" ≡ ok (text (external_key e)))
      × (get a "severity" ≡ ok (text (if is_clear e.action then "5" else severity_num e.severity)))
unfolding to_snow_event get fields
snow-entries f e a x = ground arith

severity_num-open : (s : Severity) → s ≢ normal → (severity_num s == "5") ≡ false
severity_num-open normal n = absurd (n refl)
severity_num-open warning n = refl
severity_num-open minor n = refl
severity_num-open major n = refl
severity_num-open critical n = refl

-- ServiceNow's event table is sent a problem of more than normal severity and its recovery under one
-- key, the recovery alone with severity 5.
to_snow_event-Closes :
    (f : Formats) (e c : CanonicalEvent) (a b : Json)
    → IsPair e c
    → e.severity ≢ normal
    → to_snow_event f e ≡ ok a
    → to_snow_event f c ≡ ok b
    → Closes "message_key" "severity" "5" a b
to_snow_event-Closes f e c a b h n x y =
    pair-Closes "message_key" "severity" "5" (severity_num e.severity) e c a b h
      (rw h.raises at (snow-entries f e a x)) (rw h.clears at (snow-entries f c b y))
      (severity_num-open e.severity n)

ops-entries :
    (f : Formats) (service : String) (e : CanonicalEvent) (a : Json)
    → to_alert f service e ≡ ok a
    → (get a "alertKey" ≡ ok (text (external_key e)))
      × (get a "currentState"
          ≡ ok (text (if is_clear e.action then "Ok" else ops_state f e.severity)))
unfolding to_alert get fields
ops-entries f service e a x = ground arith

ops_state-open : (f : Formats) (s : Severity) → s ≢ normal → (ops_state f s == "Ok") ≡ false
ops_state-open f normal n = absurd (n refl)
ops_state-open f warning n = refl
ops_state-open f minor n = refl
ops_state-open f major n = refl
ops_state-open f critical n = refl

-- OpsRamp is sent a problem of more than normal severity and its recovery under one key, the recovery
-- alone in state Ok.
to_alert-Closes :
    (f : Formats) (service : String) (e c : CanonicalEvent) (a b : Json)
    → IsPair e c
    → e.severity ≢ normal
    → to_alert f service e ≡ ok a
    → to_alert f service c ≡ ok b
    → Closes "alertKey" "currentState" "Ok" a b
to_alert-Closes f service e c a b h n x y =
    pair-Closes "alertKey" "currentState" "Ok" (ops_state f e.severity) e c a b h
      (rw h.raises at (ops-entries f service e a x)) (rw h.clears at (ops-entries f service c b y))
      (ops_state-open f e.severity n)
