-- ===== src/Core/Compliance/Calls.antt =====
-- The look-up of the compliance asks COM only.
use hpe_com_event_integratio.Base.{
  ℕ, zero, suc, ◌<>◌, String, List, [], ◌∷◌, refl, length, ltb, Option, none, some, ◌+◌,
}
use text.Mathlib.TextPositions.{starts_with-append}
use hpe_com_event_integratio.Base.TextLaws.{append_assoc}
use hpe_com_event_integratio.Python.{Json, get, elements_or_nil, str}
use hpe_com_event_integratio.Core.Com.{
  Client, Transport, Com, list_groups, get_group_compliance, page_of,
}
use hpe_com_event_integratio.Core.Com.Steps.{Keeps, Sent, >>=-Keeps, lift->>=-Keeps, if-Keeps}
use hpe_com_event_integratio.Core.Com.Hosts.{GoesHome, service_path-GoesHome}
use hpe_com_event_integratio.Core.Compliance.Records.{first_where, has_device, item_of}
use hpe_com_event_integratio.Core.Compliance.{
  Turn, found, stop, go_on, Search, group_found, no_group, out_of_fuel, settle_page, read_page,
  is_last, one_page, next_turn, search_pages, find_group_for_device, get_device_compliance,
  compliance_of, page_size, resolve_compliance,
}

module _ (t : Transport) (c : Client) (device_id : String) where
  abbrev Home : {A : Type 0} → Com A → Type 0
  Home m = Keeps (Sent (GoesHome t c.base)) m

  settle_page-Home :
      (items : List Json) (scanned offset : ℕ) (page : Json) (o : Option Json)
      → Home (settle_page t items scanned offset page o)
  unfolding settle_page
  settle_page-Home items scanned offset page (some g) = λ s k. k
  settle_page-Home items scanned offset page none =
      lift->>=-Keeps (Sent (GoesHome t c.base)) (get page "total") _ (λ total.
        lift->>=-Keeps (Sent (GoesHome t c.base))
          (is_last t (length items) (offset + length items) total) _ (λ last s k. k))

  read_page-Home :
      (scanned offset : ℕ) (page : Json) (groups : List Json)
      → Home (read_page t device_id scanned offset page groups)
  read_page-Home scanned offset page [] = λ s k. k
  read_page-Home scanned offset page (j ∷ js) =
      lift->>=-Keeps (Sent (GoesHome t c.base)) (first_where (has_device device_id) (j ∷ js)) _
        (settle_page-Home (j ∷ js) scanned offset page)

  one_page-Home : (scanned offset : ℕ) → Home (one_page t c device_id scanned offset)
  unfolding one_page list_groups
  one_page-Home scanned offset =
      >>=-Keeps (Sent (GoesHome t c.base)) (list_groups t c page_size offset) _
        (service_path-GoesHome t c "/compute-ops-mgmt/v1/groups" (page_of t page_size offset) refl)
        (λ page. lift->>=-Keeps (Sent (GoesHome t c.base)) (get page "items") _ (λ items.
          lift->>=-Keeps (Sent (GoesHome t c.base)) (elements_or_nil items) _
            (read_page-Home scanned offset page)))

  next_turn-Home :
      (more : ℕ → ℕ → Com Search)
      → ((m o : ℕ) → Home (more m o))
      → (turn : Turn) → Home (next_turn t more turn)
  next_turn-Home more ih (found g) = λ s k. k
  next_turn-Home more ih stop = λ s k. k
  next_turn-Home more ih (go_on m o) = ih m o

  search_pages-Home :
      (fuel max_groups scanned offset : ℕ)
      → Home (search_pages t fuel c device_id max_groups scanned offset)
  unfolding search_pages
  search_pages-Home zero max_groups scanned offset = λ s k. k
  search_pages-Home (suc fuel) max_groups scanned offset =
      if-Keeps (Sent (GoesHome t c.base)) (ltb scanned max_groups) _ _
        (>>=-Keeps (Sent (GoesHome t c.base)) (one_page t c device_id scanned offset) _
          (one_page-Home scanned offset) (next_turn-Home _ (search_pages-Home fuel max_groups)))
        (λ s k. k)

  get_device_compliance-Home : (group : Json) → Home (get_device_compliance t c group device_id)
  unfolding get_device_compliance get_group_compliance
  get_device_compliance-Home group =
      lift->>=-Keeps (Sent (GoesHome t c.base)) (item_of "id" group) _ (λ id.
        >>=-Keeps (Sent (GoesHome t c.base)) (get_group_compliance t c (str t.repr id) page_size 0)
          _
          (service_path-GoesHome t c
            ("/compute-ops-mgmt/v1/groups/" <> (str t.repr id <> "/compliance"))
            (page_of t page_size 0)
            (rw (append_assoc "/compute-ops-mgmt/" "v1/groups/" (str t.repr id <> "/compliance")) (
              starts_with-append "/compute-ops-mgmt/"
                ("v1/groups/" <> (str t.repr id <> "/compliance")))))
          (λ page s k. k))

  compliance_of-Home : (more : Search) → Home (compliance_of t c device_id more)
  compliance_of-Home (group_found g) = get_device_compliance-Home g
  compliance_of-Home no_group = λ s k. k
  compliance_of-Home out_of_fuel = λ s k. k

  pub resolve_compliance-GoesHome : Home (resolve_compliance t c device_id)
  unfolding resolve_compliance find_group_for_device
  resolve_compliance-GoesHome =
      >>=-Keeps (Sent (GoesHome t c.base)) (find_group_for_device t c device_id 500) _
        (search_pages-Home 501 500 0 0) compliance_of-Home
