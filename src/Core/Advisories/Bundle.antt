-- ===== src/Core/Advisories/Bundle.antt =====
-- com-event-core/com_event_core/enrich/hpe_advisories.py: what is read from a server and from a bundle.
use hpe_com_event_integratio.Base.{String, Option, none, some, if◌then◌else◌}
use hpe_com_event_integratio.Python.{
  Json, object, field, end, Result, ok, ◌>>=◌, is_truthy, get, get_dict, as_text,
}

-- The reference in the payload of a server or in a server of COM, `null` or empty if it has none.
unfoldable pub bundle_ref_in : Json → Result Json
unfolding get get_dict
bundle_ref_in server = do
  ref ← get server "firmwareBundleUri"
  (if is_truthy ref
      then ok ref
      else (get_dict server "lastFirmwareUpdate" >>= λ last. get last "attemptedBaselineUri"))

-- A reference that is not empty, as a text.
unfoldable pub ref_text : Json → Result (Option String)
unfolding as_text
ref_text ref = if is_truthy ref then (as_text ref >>= λ s. ok (some s)) else ok none

-- `bundle_info`
unfoldable pub bundle_info : Json → Result Json
unfolding get
bundle_info bundle = do
  advisories_url ← get bundle "advisories"
  id ← get bundle "id"
  display_name ← get bundle "displayName"
  release_version ← get bundle "releaseVersion"
  release_date ← get bundle "releaseDate"
  bundle_generation ← get bundle "bundleGeneration"
  support_url ← get bundle "supportUrl"
  ok (
      object (
        field "id" id (
          field "displayName" display_name (
            field "releaseVersion" release_version (
              field "releaseDate" release_date (
                field "bundleGeneration" bundle_generation
                  (field "supportUrl" support_url (field "advisoriesUrl" advisories_url end))))))))
