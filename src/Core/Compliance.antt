-- ===== src/Core/Compliance.antt =====
-- com-event-core/com_event_core/enrich/compliance.py: the group of a device and its record of firmware
-- compliance. The loop over the pages runs on fuel, one unit for each page; `max_groups` units are
-- enough, since a page that is not the last adds to the number of groups seen.
pub mod Records
pub mod Paging
pub mod Membership
pub mod Calls
use hpe_com_event_integratio.Base.{
  ℕ, zero, suc, ◌+◌, String, Bool, true, List, [], ◌∷◌, Option, none, some, length, ltb, leb,
  if◌then◌else◌,
}
use hpe_com_event_integratio.Python.{
  Json, bool, number, Result, ok, raised, type_error, is_truthy, get, elements_or_nil, str,
}
use hpe_com_event_integratio.Core.Com.{
  Com, ◌>>=◌, lift, Client, Transport, list_groups, get_group_compliance,
}
use Records.{first_where, has_device, item_of, device_record}

abbrev pub page_size : ℕ
page_size = 100

-- What one page leads to: the group, the end of the search, or the next `scanned` and `offset`.
pub data Turn : Type 0 where
  found : Json → Turn
  stop : Turn
  go_on : ℕ → ℕ → Turn

pub data Search : Type 0 where
  group_found : Json → Search
  no_group out_of_fuel : Search

module _ (t : Transport) where
  -- `n >= j`
  abbrev pub reaches : ℕ → Json → Result Bool
  reaches n (number b s) = ok (t.at_most s n)
  reaches n (bool b) = ok (leb (if b then 1 else 0) n)
  reaches n _ = raised type_error

  -- `len(items) < _PAGE_SIZE or offset >= (page.get("total") or 0)`
  abbrev pub is_last : ℕ → ℕ → Json → Result Bool
  is_last count offset total =
      if ltb count page_size
      then ok true
      else if is_truthy total
      then reaches offset total
      else ok true

  abbrev pub turn_after : ℕ → ℕ → Bool → Turn
  turn_after scanned offset last = if last then stop else go_on scanned offset

  -- The body of the loop, for the group found on the page.
  unfoldable pub settle_page : List Json → ℕ → ℕ → Json → Option Json → Com Turn
  unfolding get
  settle_page items scanned offset page (some group) = lift (ok (found group))
  settle_page items scanned offset page none = do
    total ← lift (get page "total")
    last ← lift (is_last (length items) (offset + length items) total)
    lift (ok (turn_after (scanned + length items) (offset + length items) last))

  abbrev pub read_page : String → ℕ → ℕ → Json → List Json → Com Turn
  read_page device_id scanned offset page [] = lift (ok stop)
  read_page device_id scanned offset page (j ∷ js) =
      lift (first_where (has_device device_id) (j ∷ js))
      >>= settle_page (j ∷ js) scanned offset page

  unfoldable pub one_page : Client → String → ℕ → ℕ → Com Turn
  unfolding list_groups settle_page
  one_page c device_id scanned offset = do
    page ← list_groups t c page_size offset
    items ← lift (get page "items")
    groups ← lift (elements_or_nil items)
    read_page device_id scanned offset page groups

  abbrev pub next_turn : (ℕ → ℕ → Com Search) → Turn → Com Search
  next_turn search (found group) = lift (ok (group_found group))
  next_turn search stop = lift (ok no_group)
  next_turn search (go_on scanned offset) = search scanned offset

  unfoldable pub search_pages : ℕ → Client → String → ℕ → ℕ → ℕ → Com Search
  unfolding one_page
  search_pages zero c device_id max_groups scanned offset = lift (ok out_of_fuel)
  search_pages (suc fuel) c device_id max_groups scanned offset =
      let search = search_pages fuel c device_id max_groups in
      let turn = one_page c device_id scanned offset >>= next_turn search in
      if ltb scanned max_groups then turn else lift (ok no_group)

  unfoldable pub find_group_for_device : Client → String → ℕ → Com Search
  unfolding search_pages
  find_group_for_device c device_id max_groups =
      search_pages (suc max_groups) c device_id max_groups 0 0

  unfoldable pub get_device_compliance : Client → Json → String → Com (Option Json)
  unfolding get_group_compliance item_of str device_record
  get_device_compliance c group device_id = do
    id ← lift (item_of "id" group)
    page ← get_group_compliance t c (str t.repr id) page_size 0
    lift (device_record group device_id page)

  abbrev compliance_of : Client → String → Search → Com (Option Json)
  compliance_of c device_id (group_found group) = get_device_compliance c group device_id
  compliance_of c device_id _ = lift (ok none)

  -- `resolve_compliance`, with the default bound on the groups.
  unfoldable pub resolve_compliance : Client → String → Com (Option Json)
  unfolding find_group_for_device get_device_compliance
  resolve_compliance c device_id = do
    search ← find_group_for_device c device_id 500
    compliance_of c device_id search
