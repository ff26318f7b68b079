-- ===== src/Core/Compliance/Records.antt =====
-- com-event-core/com_event_core/enrich/compliance.py: what is read from a group and from a record of
-- its compliance.
use hpe_com_event_integratio.Base.{
  String, Bool, true, false, List, [], ◌∷◌, Option, none, some, ◌==◌, if◌then◌else◌,
}
use hpe_com_event_integratio.Python.{
  Json, array, object, Items, nil, cons, Fields, field, end, Result, ok, raised, ◌>>=◌, type_error,
  key_error, get, get_dict, elements_or_nil, equals_text,
}

-- `d.get("deviceId") == device_id or d.get("id") == device_id`
unfoldable pub is_device : String → Json → Result Bool
unfolding get
is_device device_id d = do
  a ← get d "deviceId"
  b ← get d "id"
  ok (if equals_text a device_id then true else equals_text b device_id)

-- The first element that passes a test, which may raise.
unfoldable pub first_where : (Json → Result Bool) → List Json → Result (Option Json)
first_where p [] = ok none
first_where p (j ∷ js) =
    let rest = first_where p js in
    elim (p j) [ raised e ↦ raised e | ok true ↦ ok (some j) | ok false ↦ rest ]

abbrev pub is_some : Option Json → Bool
is_some none = false
is_some (some j) = true

-- `any(...)` over the `devices` of a group
unfoldable pub has_device : String → Json → Result Bool
unfolding get elements_or_nil first_where
has_device device_id group = do
  j ← get group "devices"
  devices ← elements_or_nil j
  device ← first_where (is_device device_id) devices
  ok (is_some device)

-- `group[k]`
unfoldable pub item : String → Fields → Result Json
item k end = raised key_error
item k (field j v fs) = let rest = item k fs in if j == k then ok v else rest

unfoldable pub item_of : String → Json → Result Json
unfolding item
item_of k (object fs) = item k fs
item_of k _ = raised type_error

-- One of the `deviations`.
unfoldable pub deviation : Json → Result Json
unfolding get
deviation d = do
  category ← get d "category"
  component ← get d "componentName"
  expected ← get d "expectedVersion"
  installed ← get d "installedVersion"
  ok (
      object (
        field "category" category (
          field "component" component
            (field "expected_version" expected (field "installed_version" installed end)))))

unfoldable pub deviations : List Json → Result Items
unfolding deviation
deviations [] = ok nil
deviations (d ∷ ds) = do first ← deviation d; rest ← deviations ds; ok (cons first rest)

-- `r.get("deviceId") == device_id`
unfoldable pub is_record_of : String → Json → Result Bool
unfolding get
is_record_of device_id r = do j ← get r "deviceId"; ok (equals_text j device_id)

-- The document for the record of a device.
unfoldable pub compact : Json → Json → Result Json
unfolding get get_dict deviations elements_or_nil
compact group r = do
  group_id ← get group "id"
  group_name ← get group "name"
  rollup ← get_dict group "groupCompliance"
  firmware ← get_dict rollup "firmware"
  status ← get firmware "status"
  bundle_id ← get r "bundleId"
  state ← get r "complianceState"
  score ← get r "score"
  j ← get r "deviations"
  ds ← elements_or_nil j
  changes ← deviations ds
  ok (
      object (
        field "group_id" group_id (
          field "group_name" group_name (
            field "group_firmware_status" status (
              field "assigned_bundle_id" bundle_id (
                field "compliance_state" state
                  (field "score" score (field "deviations" (array changes) end))))))))

unfoldable pub compact_if : Json → Option Json → Result (Option Json)
unfolding compact
compact_if group none = ok none
compact_if group (some r) = do document ← compact group r; ok (some document)

-- The record of the device on the page, in short.
unfoldable pub device_record : Json → String → Json → Result (Option Json)
unfolding get elements_or_nil first_where is_record_of compact_if
device_record group device_id page = do
  j ← get page "items"
  records ← elements_or_nil j
  r ← first_where (is_record_of device_id) records
  compact_if group r
