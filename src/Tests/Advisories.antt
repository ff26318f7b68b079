-- ===== src/Tests/Advisories.antt =====
-- The cache at its bound, and the choice of an advisory.
use hpe_com_event_integratio.Base.{
  ℕ, ◌+◌, ◌≤◌, String, Bool, true, false, List, [], ◌∷◌, Option, none, some, ◌≡◌, refl, arith, All,
  length, leb, if◌then◌else◌,
}
use hpe_com_event_integratio.Python.{Json, text, object, field, end, Result, ok, raised}
use hpe_com_event_integratio.Core.Event.{CanonicalEvent, blank}
use hpe_com_event_integratio.Core.Advisories.{cache_get, cache_put, keywords, relevant}
use hpe_com_event_integratio.Core.Advisories.Cache.{cache_put-bounded}
use hpe_com_event_integratio.Core.Advisories.Relevance.{IsWordOf, HasSource, relevant-HasSource}

abbrev cached : List (String × (ℕ × Bool))
cached = ("b1", (20, true)) ∷ ("b2", (10, false)) ∷ []

-- The older entry makes room.
put_evicts : cache_put 60 2 30 "b3" true cached ≡ ("b1", (20, true)) ∷ ("b3", (30, true)) ∷ []
unfolding cache_put hpe_com_event_integratio.Base.Dict.insert
    hpe_com_event_integratio.Core.Advisories.oldest hpe_com_event_integratio.Core.Advisories.pop
put_evicts = refl

cache_put-bounded_example : length (cache_put 60 2 30 "b3" true cached) ≤ 2
cache_put-bounded_example = cache_put-bounded 60 2 30 "b3" true cached (omega arith) (omega arith)

abbrev advisory : String → Json
advisory title = object (field "title" (text title) end)

abbrev advisories : List Json
advisories = advisory "Notice: DIMM replacement" ∷ advisory "Critical Warning Message" ∷ []

abbrev event : CanonicalEvent
event = record blank { title = text "Server n1 health CRITICAL: memory dimm degraded" }

event_words :
    keywords (event.title ∷ event.description ∷ event.category ∷ [])
    ≡ ok ("memory" ∷ "dimm" ∷ "degraded" ∷ [])
unfolding keywords hpe_com_event_integratio.Python.as_text hpe_com_event_integratio.Base.Text.lower
    hpe_com_event_integratio.Core.Advisories.is_word_char
    hpe_com_event_integratio.Core.Advisories.is_long hpe_com_event_integratio.Base.contains
event_words = refl

abbrev references_of : Result (List Json) → List Json
references_of (ok refs) = refs
references_of (raised e) = []

abbrev references : List Json
references = references_of (relevant event advisories "open")

references_run : relevant event advisories "open" ≡ ok references
unfolding relevant keywords hpe_com_event_integratio.Python.as_text
    hpe_com_event_integratio.Core.Advisories.advisory_words hpe_com_event_integratio.Python.get
    hpe_com_event_integratio.Core.Advisories.reference
references_run = refl

-- Severity words and boilerplate make no match.
one_reference : length references ≡ 1
unfolding relevant keywords hpe_com_event_integratio.Python.as_text
    hpe_com_event_integratio.Core.Advisories.advisory_words hpe_com_event_integratio.Python.get
    hpe_com_event_integratio.Core.Advisories.reference
    hpe_com_event_integratio.Core.Advisories.overlap hpe_com_event_integratio.Base.Text.lower
    hpe_com_event_integratio.Core.Advisories.is_word_char
    hpe_com_event_integratio.Core.Advisories.is_long hpe_com_event_integratio.Base.contains
one_reference = refl

relevant-HasSource_example :
    (event_words : List String) × All
      (IsWordOf (event.title ∷ event.description ∷ event.category ∷ []))
      event_words
    × All (HasSource event_words "open" advisories) references
relevant-HasSource_example = relevant-HasSource event advisories "open" references references_run
