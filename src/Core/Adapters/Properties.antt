-- ===== src/Core/Adapters/Properties.antt =====
-- The properties of an event at Dynatrace.
use hpe_com_event_integratio.Base.{
  String, Bool, true, false, List, [], ◌∷◌, ◌||◌, ◌≡◌, refl, arith, eq_iff, ◌==◌, if◌then◌else◌,
}
use hpe_com_event_integratio.Base.Dict.{insert}
use hpe_com_event_integratio.Python.{Json, null, text, ok, ◌>>=◌, find, get}
use hpe_com_event_integratio.Core.Event.{CanonicalEvent}
use hpe_com_event_integratio.Core.Render.{Formats}
use hpe_com_event_integratio.Core.Adapters.{Entries, fields, update, external_key}
use hpe_com_event_integratio.Core.Adapters.Monitoring.{present, to_ingest, optional_properties}

-- Whether a key stands in a list of entries.
unfoldable pub has_key : String → Entries → Bool
has_key k [] = false
has_key k ((j, v) ∷ entries) = j == k || has_key k entries

find-insert :
    (k j : String) (v d : Json) (props : Entries)
    → find k (fields (insert j v props)) d ≡ (if j == k then v else find k (fields props) d)
unfolding find fields insert
find-insert k j v d [] = refl
find-insert k j v d ((i, w) ∷ props) =
    ground (arith, eq_iff i j, eq_iff i k, eq_iff j k, find-insert k j v d props)

find-update :
    (k : String) (d : Json) (props entries : Entries)
    → has_key k entries ≡ false
    → find k (fields (update props entries)) d ≡ find k (fields props) d
unfolding update has_key
find-update k d props [] h = refl
find-update k d props ((j, v) ∷ entries) h =
    ground (arith, find-update k d (insert j v props) entries, find-insert k j v d props)

abbrev key : String
key = "com.correlation_key"

-- The key is none of those of a list of optional entries.
abbrev lacks : List (Bool × String × Json) → Bool
lacks [] = true
lacks ((b, j, v) ∷ more) = if j == key then false else lacks more

present-has_key :
    (more : List (Bool × String × Json)) → lacks more ≡ true → has_key key (present more) ≡ false
unfolding present has_key
present-has_key [] h = refl
present-has_key ((b, j, v) ∷ more) h = ground (arith, present-has_key more)

-- Whatever DYNATRACE_PROPERTIES holds, Dynatrace is sent the event's own correlation key.
to_ingest-external_key :
    (f : Formats) (properties selector : String) (e : CanonicalEvent)
    → (get (to_ingest f properties selector e) "properties" >>= λ props. get props key)
      ≡ ok (text (external_key e))
unfolding to_ingest get fields update
to_ingest-external_key f properties selector e =
    rw
      (find-update key null _ (present (optional_properties f e))
        (present-has_key (optional_properties f e) refl))
      (rw (find-insert key key) refl)
