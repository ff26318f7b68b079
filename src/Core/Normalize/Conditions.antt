-- ===== src/Core/Normalize/Conditions.antt =====
-- The evaluators of `_SERVER_CONDITIONS`, `_is_past` and `_server_health_detail` of normalize.py.
use hpe_com_event_integratio.Base.{
  ℕ, String, ◌<>◌, Bool, true, false, not, List, [], ◌∷◌, Option, none, some, ◌==◌, ◌||◌, ◌&&◌, ltb,
  contains, if◌then◌else◌,
}
use hpe_com_event_integratio.Base.Text.{upper, lower, join, truthy}
use hpe_com_event_integratio.Python.{
  Json, bool, text, object, Fields, end, field, Result, ok, raised, type_error, ◌>>=◌, ◌or◌,
  is_truthy, get, get_or, get_dict, str,
}
use hpe_com_event_integratio.Core.Event.{Severity, normal, warning, minor, major}
use hpe_com_event_integratio.Core.Normalize.Environment.{DateTime, naive, aware, Platform}
use hpe_com_event_integratio.Core.Normalize.Severity.{map_health_severity}
use hpe_com_event_integratio.Core.Normalize.Monitors.{
  Condition, health, power, connection, subscription,
}

-- `_CondResult`
pub record CondResult : Type 0 where
  pub is_problem : Bool
  pub severity : Severity
  pub title : String
  pub description : String
  pub category : String

-- `sev != SEVERITY_NORMAL`
abbrev pub is_abnormal : Severity → Bool
is_abnormal normal = false
is_abnormal _ = true

-- `dt.replace(tzinfo=timezone.utc)` where there is none, as microseconds.
abbrev instant : DateTime → ℕ
instant (naive t) = t
instant (aware t) = t

module _ (p : Platform) where
  is_past_text : Option DateTime → Bool
  is_past_text none = false
  is_past_text (some t) = ltb (instant t) p.now

  unfoldable pub is_past : Json → Result Bool
  unfolding is_past_text
  is_past (text s) = ok (if truthy s then is_past_text (p.from_iso s) else false)
  is_past j = if is_truthy j then raised type_error else ok false

  -- The subsystems that are not healthy, `k=v`.
  unhealthy : Fields → List String
  unhealthy end = []
  unhealthy (field k (text v) fs) =
      let rest = unhealthy fs in
      if not (contains ("summary" ∷ "healthLED" ∷ []) k)
        && not (contains ("OK" ∷ "REDUNDANT" ∷ "NOT_PRESENT" ∷ "READY" ∷ "ENABLED" ∷ []) (upper v))
      then (k <> "=" <> v) ∷ rest
      else rest
  unhealthy (field k v fs) = unhealthy fs

  components : List String → List String
  components [] = []
  components (c ∷ cs) = ("Components not OK: " <> join ", " (c ∷ cs)) ∷ []

  unfoldable pub server_health_detail : Json → Json → Fields → String
  unfolding unhealthy components
  server_health_detail name summary fs = join "\n" (
      ("Server: " <> str p.repr name)
      ∷ ("Health summary: " <> str p.repr (summary or text "unknown"))
      ∷ components (unhealthy fs))

  -- `health.items()` of the dict that `health.get` has already been called on.
  abbrev fields_of : Json → Fields
  fields_of (object fs) = fs
  fields_of _ = end

  unfoldable pub cond_health : Json → Json → Result CondResult
  unfolding server_health_detail
  cond_health payload name = do
    hw ← get_dict payload "hardware"
    block ← get_dict hw "health"
    summary ← get block "summary"
    sev ← map_health_severity summary
    let problem = is_abnormal sev
    ok (record {
      is_problem = problem;
      severity = if problem then sev else normal;
      title =
          if problem
          then "Server " <> str p.repr name <> " health " <> str p.repr (summary or text "not OK")
          else "Server " <> str p.repr name <> " returned to healthy (health OK)";
      description = server_health_detail name summary (fields_of block);
      category = "hardware-health";
    })

  unfoldable pub cond_power : Json → Json → Result CondResult
  cond_power payload name = do
    hw ← get_dict payload "hardware"
    state ← get_or hw "powerState" (text "")
    let power_state = upper (str p.repr (state or text ""))
    let problem = power_state == "OFF"
    ok (record {
      is_problem = problem;
      severity = if problem then warning else normal;
      title =
          if problem
          then "Server " <> str p.repr name <> " is powered OFF"
          else "Server " <> str p.repr name <> " is powered ON";
      description =
          "Server: "
          <> str p.repr name
          <> "\nPower state: "
          <> (if truthy power_state then power_state else "unknown");
      category = "power";
    })

  -- `j is False`
  abbrev is_false : Json → Bool
  is_false (bool false) = true
  is_false _ = false

  unfoldable pub cond_connection : Json → Json → Result CondResult
  cond_connection payload name = do
    state ← get_dict payload "state"
    connected ← get state "connected"
    changed ← get state "connectedModifiedAt"
    let problem = is_false connected
    ok (record {
      is_problem = problem;
      severity = if problem then major else normal;
      title =
          if problem
          then "Server " <> str p.repr name <> " disconnected from COM"
          else "Server " <> str p.repr name <> " connected to COM";
      description =
          "Server: "
          <> str p.repr name
          <> "\nConnected: "
          <> str p.repr connected
          <> (if is_truthy changed then "\nConnection changed: " <> str p.repr changed else "");
      category = "connectivity";
    })

  unfoldable pub cond_subscription : Json → Json → Result CondResult
  unfolding is_past
  cond_subscription payload name = do
    state ← get_dict payload "state"
    sub ← get state "subscriptionState"
    expires ← get state "subscriptionExpiresAt"
    expired ← is_past expires
    let not_subscribed = is_truthy sub && not (upper (str p.repr sub) == "SUBSCRIBED")
    let problem = not_subscribed || expired
    let reason = if expired then text "expired" else sub or text "not subscribed"
    ok (record {
      is_problem = problem;
      severity = if problem then minor else normal;
      title =
          if problem
          then "Server " <> str p.repr name <> " subscription " <> lower (str p.repr reason)
          else "Server " <> str p.repr name <> " subscription active";
      description =
          "Server: "
          <> str p.repr name
          <> "\nSubscription: "
          <> str p.repr (sub or text "unknown")
          <> (if is_truthy expires then "\nExpires: " <> str p.repr expires else "");
      category = "subscription";
    })

  -- `_SERVER_CONDITIONS[cond](payload, name)`
  unfoldable pub evaluate : Condition → Json → Json → Result CondResult
  unfolding cond_health cond_power cond_connection cond_subscription
  evaluate health = cond_health
  evaluate power = cond_power
  evaluate connection = cond_connection
  evaluate subscription = cond_subscription
