-- ===== src/Core/Redfish/Log.antt =====
-- com-event-core/com_event_core/enrich/redfish.py: `_collect_log`, for the collection that was read.
use hpe_com_event_integratio.Base.{
  ℕ, zero, suc, String, Bool, List, [], ◌∷◌, Option, none, some, length, if◌then◌else◌,
}
use Prim.Native.String.{compare}
use package.text.Mathlib.Text.{is_le}
use hpe_com_event_integratio.Python.{
  Json, text, object, field, end, Result, ok, ◌>>=◌, is_truthy, get, str, ◌or◌, elements_or_nil,
}
use hpe_com_event_integratio.Core.Redfish.Sensors.{Numbers, state_text, is_healthy}

-- An entry with its sort key, `str(m.get("Created") or "")`.
pub record Dated : Type 0 where
  pub created : String
  pub entry : Json

-- `s <= t`, by code points
abbrev pub text_le : String → String → Bool
text_le s t = is_le (compare s t)

-- `severity not in _HEALTHY`, for the entries in their order
unfoldable pub interesting : Numbers → List Json → Result (List Dated)
unfolding get state_text str
interesting n [] = ok []
interesting n (m ∷ ms) = do
  severity ← get m "Severity"
  created ← get m "Created"
  rest ← interesting n ms
  ok (
      if is_healthy (state_text n severity)
      then rest
      else record { created = str n.repr (created or text ""); entry = m } ∷ rest)

-- `sort(key=..., reverse=True)`, which keeps the order of entries with equal keys.
unfoldable pub insert_newest : Dated → List Dated → List Dated
insert_newest d [] = d ∷ []
insert_newest d (e ∷ es) =
    let rest = insert_newest d es in if text_le e.created d.created then d ∷ e ∷ es else e ∷ rest

unfoldable pub newest_first : List Dated → List Dated
unfolding insert_newest
newest_first [] = []
newest_first (d ∷ ds) = insert_newest d (newest_first ds)

-- `entries[:limit]`
unfoldable pub first_few : ℕ → List Dated → List Dated
first_few zero ds = []
first_few (suc n) [] = []
first_few (suc n) (d ∷ ds) = d ∷ first_few n ds

-- The four fields that are kept of an entry.
unfoldable pub short_entry : Json → Result Json
unfolding get
short_entry m = do
  created ← get m "Created"
  severity ← get m "Severity"
  message ← get m "Message"
  entry_type ← get m "EntryType"
  ok (
      object (
        field "Created" created
          (field "Severity" severity (field "Message" message (field "EntryType" entry_type end)))))

unfoldable pub short_entries : List Dated → Result (List Json)
unfolding short_entry
short_entries [] = ok []
short_entries (d ∷ ds) = do first ← short_entry d.entry; rest ← short_entries ds; ok (first ∷ rest)

pub record LogRead : Type 0 where
  pub entries : List Json
  pub total : ℕ

abbrev pub no_log : LogRead
no_log = record { entries = []; total = 0 }

unfoldable pub read_members : Numbers → ℕ → List Json → Result LogRead
unfolding interesting newest_first first_few short_entries
read_members n limit members = do
  found ← interesting n members
  entries ← short_entries (first_few limit (newest_first found))
  ok (record { entries = entries; total = length members })

abbrev read_collection : Numbers → ℕ → Json → Result LogRead
read_collection n limit collection = do
  j ← get collection "Members"
  members ← elements_or_nil j
  read_members n limit members

unfoldable pub read_log : Numbers → ℕ → Option Json → Result LogRead
unfolding get elements_or_nil read_members
read_log n limit none = ok no_log
read_log n limit (some collection) =
    if is_truthy collection then read_collection n limit collection else ok no_log
