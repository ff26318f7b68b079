-- ===== src/Core/Redfish/Members.antt =====
-- com-event-core/com_event_core/enrich/redfish.py: `_collect_unhealthy_members`.
use hpe_com_event_integratio.Base.{
  ℕ, zero, suc, ◌+◌, String, List, [], ◌∷◌, ◌++◌, Option, none, some, length, if◌then◌else◌,
}
use hpe_com_event_integratio.Python.{Json, Result, ok, raised, is_truthy, get, str, elements_or_nil}
use hpe_com_event_integratio.Core.Com.{Step, ◌>>=◌, lift, attempt}
use hpe_com_event_integratio.Core.Redfish.Sensors.{health_of, is_healthy}
use hpe_com_event_integratio.Core.Redfish.{Ilo, Evidence, fetch}

pub record Summary : Type 0 where
  pub collection : String
  pub total_members : ℕ
  pub inspected : ℕ
  pub unhealthy : List Json

-- `inspected` and `unhealthy` while the loop runs.
pub record Progress : Type 0 where
  pub inspected : ℕ
  pub unhealthy : List Json

-- `members[:max_members]`
unfoldable pub first_members : ℕ → List Json → List Json
first_members zero js = []
first_members (suc n) [] = []
first_members (suc n) (j ∷ js) = j ∷ first_members n js

module _ (i : Ilo) where
  abbrev pub counted : Json → Progress → String → Progress
  counted member p health =
      if is_healthy health
      then record p { inspected = p.inspected + 1 }
      else record { inspected = p.inspected + 1; unhealthy = p.unhealthy ++ member ∷ [] }

  -- A resource that could not be read, is not there or is empty, is skipped.
  abbrev pub inspect : Progress → Option (Option Json) → Result Progress
  inspect p (some (some member)) =
      if is_truthy member
      then elim (health_of i.numbers member) [
        | raised e ↦ raised e
        | ok health ↦ ok (counted member p health)
      ]
      else ok p
  inspect p _ = ok p

  -- The path is formatted into the URL, whatever it is.
  abbrev pub visit_path : Progress → Json → Step Evidence Progress
  visit_path p path =
      if is_truthy path
      then (attempt (fetch i (str i.numbers.repr path)) >>= λ got. lift (inspect p got))
      else lift (ok p)

  -- One turn of the loop.
  unfoldable pub visit : Progress → Json → Step Evidence Progress
  unfolding fetch health_of get
  visit p ref = do path ← lift (get ref "@odata.id"); visit_path p path

  unfoldable pub visit_all : List Json → Progress → Step Evidence Progress
  unfolding visit
  visit_all [] p = lift (ok p)
  visit_all (ref ∷ refs) p = do next ← visit p ref; visit_all refs next

  abbrev pub refs_in : Json → Result Json
  refs_in collection = elim (get collection "Members") [
    | raised e ↦ raised e
    | ok members ↦ if is_truthy members then ok members else get collection "Drives"
  ]

  abbrev pub summary_of : String → ℕ → Progress → Option Summary
  summary_of path total p = some (record {
    collection = path;
    total_members = total;
    inspected = p.inspected;
    unhealthy = p.unhealthy;
  })

  abbrev pub expand : String → ℕ → Json → Step Evidence (Option Summary)
  expand path max_members collection = do
    j ← lift (refs_in collection)
    members ← lift (elements_or_nil j)
    p ← visit_all (first_members max_members members) (record { inspected = 0; unhealthy = [] })
    lift (ok (summary_of path (length members) p))

  abbrev pub expand_if : String → ℕ → Option Json → Step Evidence (Option Summary)
  expand_if path max_members none = lift (ok none)
  expand_if path max_members (some collection) =
      if is_truthy collection then expand path max_members collection else lift (ok none)

  unfoldable pub collect_unhealthy_members : String → ℕ → Step Evidence (Option Summary)
  unfolding fetch visit_all first_members get elements_or_nil
  collect_unhealthy_members path max_members = do
    collection ← fetch i path
    expand_if path max_members collection
