-- ===== src/Core/Redfish.antt =====
-- com-event-core/com_event_core/enrich/redfish.py: the evidence that a server's iLO gives. The state
-- holds the paths that were asked for and what the bundle has so far; the HTTP library is the parameter
-- `Ilo`. The `@odata.id` of a controller or a storage is taken to be a text, and the two limits of the
-- environment are natural numbers.
pub mod Sensors
pub mod Log
pub mod Newest
pub mod Members
pub mod Bundle
pub mod Bounds
use hpe_com_event_integratio.Base.{
  ℕ, String, ◌<>◌, Bool, true, false, List, [], ◌∷◌, ◌++◌, Option, none, some, not, ◌||◌, ◌&&◌,
  truthy, contains, length, nat_eq, leb, if◌then◌else◌, map,
}
use hpe_com_event_integratio.Base.Text.{rstrip_char, decimal, split, strip, lower}
use hpe_com_event_integratio.Base.Dict.{insert}
use hpe_com_event_integratio.Python.{
  Json, null, number, text, array, object, Items, nil, cons, Fields, field, end, Result, ok, raised,
  runtime_error, value_error, is_truthy, get, as_text, elements_or_nil, ◌or◌,
}
use hpe_com_event_integratio.Core.Secrets.{Host, get_secret, is_set, text_of}
use hpe_com_event_integratio.Core.Com.{Step, ◌>>=◌, lift, attempt}
use Sensors.{Numbers, trim_arrays, is_healthy, health_of}
use Log.{read_log, LogRead}

pub record Answer : Type 0 where
  pub status : ℕ
  pub document : Result Json

-- The HTTP library, which may answer a path differently every time, and the numbers of a document.
pub record Ilo : Type 0 where
  pub answer : List String → String → Result Answer
  pub numbers : Numbers

-- How `httpx` checks the certificate of the iLO.
pub data Verify : Type 0 where
  system unverified : Verify
  ca_bundle : String → Verify

pub record RedfishClient : Type 0 where
  pub base : String
  pub username : String
  pub password : String
  pub verify : Verify

pub record Evidence : Type 0 where
  pub gets : List String
  pub resources : List (String × Json)
  pub notes : List String
  pub trimmed : List String

abbrev pub new_evidence : Evidence
new_evidence = record { gets = []; resources = []; notes = []; trimmed = [] }

abbrev verify_of : Host → Verify
verify_of h =
    if contains ("1" ∷ "true" ∷ "yes" ∷ []) (lower (strip (text_of (h.env "ILO_INSECURE"))))
    then unverified
    else if is_set (h.env "ILO_CA_BUNDLE")
    then ca_bundle (text_of (h.env "ILO_CA_BUNDLE"))
    else system

-- `RedfishClient.__init__`, for a timeout that is a number.
unfoldable pub redfish_client : Host → String → Result RedfishClient
unfolding get_secret rstrip_char lower strip
redfish_client h base_url = elim (get_secret h "ILO_PASSWORD" none false) [
  | raised e ↦ raised e
  | ok password ↦
      if not (is_set (h.env "ILO_USERNAME")) || not (is_set password)
      then raised runtime_error
      else ok (record {
        base = rstrip_char b'/' base_url;
        username = text_of (h.env "ILO_USERNAME");
        password = text_of password;
        verify = verify_of h;
      })
]

-- `None` for a resource that is not there, and for the document `null`.
abbrev present : Json → Option Json
present null = none
present j = some j

abbrev pub resource_of : Answer → Result (Option Json)
resource_of r =
    if nat_eq r.status 404
    then ok none
    else if leb 400 r.status
    then raised runtime_error
    else elim r.document [ raised e ↦ raised e | ok j ↦ ok (present j) ]

module _ (i : Ilo) where
  unfoldable pub exchange : String → Step Evidence Answer
  exchange path s = (i.answer s.gets path, record s { gets = path ∷ s.gets })

  -- `RedfishClient.get`
  unfoldable pub fetch : String → Step Evidence (Option Json)
  unfolding exchange
  fetch path = do r ← exchange path; lift (resource_of r)

  unfoldable pub note : String → Step Evidence (Unit {0})
  note line s = (ok tt, record s { notes = s.notes ++ line ∷ [] })

  unfoldable pub add_resource : String → Json × List String → Step Evidence (Unit {0})
  add_resource path (resource, lines) s = (
    ok tt,
    record s { resources = insert path resource s.resources; trimmed = s.trimmed ++ lines },
  )

  abbrev absent_note : String → String
  absent_note path = path <> " not present on this iLO"

  abbrev keep_resource : String → Option Json → Step Evidence (Unit {0})
  keep_resource path none = note (absent_note path)
  keep_resource path (some resource) =
      lift (trim_arrays i.numbers path resource) >>= add_resource path

  -- The first loop of `collect_evidence`.
  unfoldable pub collect_resources : List String → Step Evidence (Unit {0})
  unfolding fetch note add_resource trim_arrays
  collect_resources [] = lift (ok tt)
  collect_resources (path ∷ paths) = do
    resource ← fetch path
    _ ← keep_resource path resource
    collect_resources paths

  -- `(resource or {}).get("Members") or []`
  abbrev members_of : Option Json → Result (List Json)
  members_of none = ok []
  members_of (some resource) = elim (get (resource or object end) "Members") [
    | raised e ↦ raised e
    | ok members ↦ elements_or_nil members
  ]

  abbrev path_if : (String → String) → Json → List String → Result (List String)
  path_if f path paths =
      if is_truthy path
      then elim (as_text path) [ raised e ↦ raised e | ok s ↦ ok (f s ∷ paths) ]
      else ok paths

  -- The paths of the references, each mapped.
  unfoldable pub paths_of : (String → String) → List Json → Result (List String)
  unfolding get as_text
  paths_of f [] = ok []
  paths_of f (ref ∷ refs) =
      let rest = paths_of f refs in
      elim (get ref "@odata.id") [
        | raised e ↦ raised e
        | ok path ↦ elim rest [ raised e ↦ raised e | ok paths ↦ path_if f path paths ]
      ]

  abbrev drives : String → String
  drives path = rstrip_char b'/' path <> "/DiskDrives"

  abbrev note_if_none : List String → Step Evidence (Unit {0})
  note_if_none [] = note "no storage controllers discovered on this iLO"
  note_if_none (path ∷ paths) = lift (ok tt)

  -- `_discover_storage_paths`
  unfoldable pub discover_storage_paths : Step Evidence (List String)
  unfolding fetch paths_of note rstrip_char get elements_or_nil
  discover_storage_paths = do
    controllers ← fetch "/redfish/v1/Systems/1/SmartStorage/ArrayControllers"
    controller_refs ← lift (members_of controllers)
    controller_paths ← lift (paths_of drives controller_refs)
    storage ← fetch "/redfish/v1/Systems/1/Storage"
    storage_refs ← lift (members_of storage)
    storage_paths ← lift (paths_of (λ path. path) storage_refs)
    _ ← note_if_none (controller_paths ++ storage_paths)
    lift (ok (controller_paths ++ storage_paths))
