-- ===== src/Core/Adapters/Chat.antt =====
-- com-event-core/com_event_core/adapters: what the chat adapters share. The descriptions and resolutions
-- of an event and the titles of its advisories are taken to be texts.
pub mod Slack
pub mod Teams
pub mod GitHub
pub mod GitHubExchange
pub mod Mattermost
pub mod Clipped
use hpe_com_event_integratio.Base.{
  ℕ, suc, ◌-◌, String, ◌<>◌, Bool, true, false, List, [], ◌∷◌, Option, none, some, leb,
  if◌then◌else◌,
}
use hpe_com_event_integratio.Base.Text.{upper, prefix, join}
use hpe_com_event_integratio.Python.{
  Json, null, text, Result, ok, raised, type_error, ◌>>=◌, ◌or◌, is_truthy, get, as_text, str,
}
use hpe_com_event_integratio.Core.Event.{
  CanonicalEvent, Severity, severity_text, Action, raise, clear,
}
use hpe_com_event_integratio.Core.Render.{Formats, item}

-- `len(s)`
unfoldable pub char_count : String → ℕ
char_count String.[] = 0
char_count (String.◌∷◌ c s) = suc (char_count s)

-- `_clip`
unfoldable pub clip : String → ℕ → String
unfolding char_count prefix
clip s limit = if leb (char_count s) limit then s else prefix (limit - 1) s <> "…"

-- A text, or a `TypeError`.
abbrev pub need_text : Json → Result String
need_text (text s) = ok s
need_text _ = raised type_error

-- One advisory of an event, as the adapters read it.
pub record Reference : Type 0 where
  pub label : String
  pub title : String
  -- The text of an id that is not empty
  pub id : Option String
  pub url : Json

abbrev pub id_text : Formats → Json → Option String
id_text f id = if is_truthy id then some (str f.repr id) else none

unfoldable pub read_reference : Formats → Json → Result Reference
unfolding item as_text get upper str
read_reference f ref = do
  status ← item ref "status"
  label ← as_text status
  j ← get ref "title"
  title ← need_text (j or text "(untitled advisory)")
  id ← get ref "id"
  url ← get ref "url"
  ok (record { label = upper label; title = title; id = id_text f id; url = url })

unfoldable pub read_references : Formats → List Json → Result (List Reference)
unfolding read_reference
read_references f [] = ok []
read_references f (ref ∷ refs) = do
  first ← read_reference f ref
  rest ← read_references f refs
  ok (first ∷ rest)

-- `"✅ Resolved" if resolved else f"🚨 {e.severity.upper()}"`
unfoldable pub headline : CanonicalEvent → String
unfolding upper
headline e = elim e.action [
  | clear ↦ "✅ Resolved"
  | raise ↦ "🚨 " <> upper (severity_text e.severity)
]

-- `j or default`, as text
abbrev pub shown : Formats → Json → String → String
shown f j default = str f.repr (j or text default)
