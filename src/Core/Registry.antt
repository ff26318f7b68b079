-- ===== src/Core/Registry.antt =====
-- Comma-separated selectors: the loop that TARGETS and ENRICHERS share, and the registry of adapters
-- (com-event-core/com_event_core/adapters/__init__.py). Constructing an adapter, which reads its own
-- variables, is a parameter.
pub mod Names
use hpe_com_event_integratio.Base.{
  String, List, [], ◌∷◌, ◌++◌, ◌||◌, not, Option, none, some, truthy, contains, if◌then◌else◌,
}
use hpe_com_event_integratio.Base.Text.{strip, lower, split}
use hpe_com_event_integratio.Python.{Result, ok, raised, value_error, ◌>>=◌}

-- `if name and name not in ordered: ordered.append(name)` for each part.
unfoldable pub add_parts : List String → List String → List String
unfolding strip lower
add_parts [] ordered = ordered
add_parts (part ∷ parts) ordered =
    let name = lower (strip part) in
    add_parts parts
      (if not (truthy name) || contains ordered name then ordered else ordered ++ name ∷ [])

unfoldable pub ordered_names : String → List String
unfolding add_parts split
ordered_names raw = add_parts (split b',' raw) []

-- The keys of `_ADAPTERS`.
abbrev pub adapter_names : List String
adapter_names =
    "obm" ∷ "servicenow" ∷ "opsramp" ∷ "halo" ∷ "splunk" ∷ "github" ∷ "slack" ∷ "mattermost"
    ∷ "teams" ∷ "jira" ∷ "pagerduty" ∷ "sentinel" ∷ "datadog" ∷ "elastic" ∷ "bmc_helix"
    ∷ "dynatrace" ∷ "grafana" ∷ "webhook" ∷ []

module _ {ℓ} {A : Type ℓ} (construct : String → Result A) where
  -- `_instantiate(name)`, for a registry with these keys.
  unfoldable pub instantiate : List String → String → Result A
  instantiate known name = if contains known name then construct name else raised value_error

  -- `[_instantiate(name) for name in ordered]`
  unfoldable pub instantiate_all : List String → List String → Result (List A)
  unfolding instantiate
  instantiate_all known [] = ok []
  instantiate_all known (name ∷ names) = do
    a ← instantiate known name
    rest ← instantiate_all known names
    ok (a ∷ rest)

  abbrev or_webhook : List String → List String
  or_webhook [] = "webhook" ∷ []
  or_webhook (n ∷ ns) = n ∷ ns

  abbrev raw_targets : Option String → String
  raw_targets none = "webhook"
  raw_targets (some s) = s

  -- `get_adapters()`; the argument is the environment's TARGETS.
  unfoldable pub get_adapters : Option String → Result (List A)
  unfolding ordered_names instantiate_all
  get_adapters targets =
      instantiate_all adapter_names (or_webhook (ordered_names (raw_targets targets)))
