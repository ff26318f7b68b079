-- ===== src/Core/Compliance/Paging.antt =====
-- The search for a group ends, within its bound.
use hpe_com_event_integratio.Base.{
  ℕ, zero, suc, ◌+◌, ◌*◌, ◌≤◌, ◌<◌, String, true, false, List, [], ◌∷◌, Option, none, some, ◌≢◌,
  ◌⊎◌, inl, inr, Bool, arith, length, ltb, if◌then◌else◌, Bool-cases,
}
use hpe_com_event_integratio.Python.{
  Json, Result, ok, raised, Result-cases, get, is_truthy, elements_or_nil,
}
use hpe_com_event_integratio.Core.Com.{
  Client, Transport, Com, ComState, send, target_of, list_groups, get_resource, and_then, lift,
  check, get_request, page_of,
}
use hpe_com_event_integratio.Core.Com.Steps.{Adds, >>=-Adds, lift-Adds, send-Adds}
use hpe_com_event_integratio.Core.Compliance.Records.{first_where, has_device}
use hpe_com_event_integratio.Core.Compliance.{
  Turn, found, stop, go_on, Search, out_of_fuel, settle_page, read_page, one_page, next_turn,
  is_last, turn_after, reaches, search_pages, find_group_for_device, page_size,
}

module _ (t : Transport) (c : Client) where
  list_groups-Adds : (limit offset : ℕ) → Adds 1 (list_groups t c limit offset)
  unfolding list_groups get_resource
  list_groups-Adds limit offset =
      let url = target_of t c "/compute-ops-mgmt/v1/groups" in
      >>=-Adds 0 1 (lift url) _ (lift-Adds url) (λ u.
        >>=-Adds 1 0 (send t (get_request u (page_of t limit offset) c.bearer c.tenant)) _
          (send-Adds t (get_request u (page_of t limit offset) c.bearer c.tenant))
          (λ r. lift-Adds (check r)))

  -- At most `n` calls in all, and a search that goes on has seen a full page more.
  abbrev IsTurn : ℕ → ℕ → Result Turn × ComState → Type 0
  IsTurn scanned n (ok (go_on m o), s) = (length s.calls ≤ n) × (scanned + 100 ≤ m)
  IsTurn scanned n (_, s) = length s.calls ≤ n

  and_then-IsTurn {ℓ} :
      {A : Type ℓ} (scanned n : ℕ) (f : A → Com Turn)
      → ((x : A) (s : ComState) → length s.calls ≤ n → IsTurn scanned n (f x s))
      → (r : Result A × ComState) → length r.1.calls ≤ n
      → IsTurn scanned n (and_then f r)
  and_then-IsTurn scanned n f hf (ok x, s) h = hf x s h
  and_then-IsTurn scanned n f hf (raised e, s) h = h

  turn_after-IsTurn :
      (count scanned offset n : ℕ) (total : Json) (s : ComState)
      → length s.calls ≤ n
      → IsTurn scanned n (
          and_then {A = Bool}
            (λ last. lift (ok (turn_after t (scanned + count) offset last)))
            (is_last t count offset total, s))
  turn_after-IsTurn count scanned offset n total s h = elim (Bool-cases (ltb count 100)) [
    | inl e ↦ rw e h
    | inr e ↦
        rw e (elim (Result-cases (if is_truthy total then reaches t offset total else ok true)) [
          | inl (true, e') ↦ rw e' h
          | inl (false, e') ↦ rw e' (h, ground (arith, e))
          | inr (x, e') ↦ rw e' h
        ])
  ]

  settle_page-IsTurn :
      (items : List Json) (scanned offset n : ℕ) (page : Json) (o : Option Json) (s : ComState)
      → length s.calls ≤ n
      → IsTurn scanned n (settle_page t items scanned offset page o s)
  unfolding settle_page
  settle_page-IsTurn items scanned offset n page (some g) s h = h
  settle_page-IsTurn items scanned offset n page none s h =
      and_then-IsTurn scanned n _
        (λ total s1 h1.
          turn_after-IsTurn (length items) scanned (offset + length items) n total s1 h1)
        (get page "total", s) h

  read_page-IsTurn :
      (device_id : String) (scanned offset n : ℕ) (page : Json) (groups : List Json) (s : ComState)
      → length s.calls ≤ n
      → IsTurn scanned n (read_page t device_id scanned offset page groups s)
  read_page-IsTurn device_id scanned offset n page [] s h = h
  read_page-IsTurn device_id scanned offset n page (j ∷ js) s h =
      and_then-IsTurn scanned n _
        (λ o s1 h1. settle_page-IsTurn (j ∷ js) scanned offset n page o s1 h1)
        (first_where (has_device device_id) (j ∷ js), s) h

  one_page-IsTurn :
      (device_id : String) (scanned offset : ℕ) (s : ComState)
      → IsTurn scanned (length s.calls + 1) (one_page t c device_id scanned offset s)
  unfolding one_page
  one_page-IsTurn device_id scanned offset s =
      let n : ℕ = length s.calls + 1 in
      and_then-IsTurn scanned n _
        (λ page s1 h1.
          and_then-IsTurn scanned n _
            (λ items s2 h2.
              and_then-IsTurn scanned n _
                (λ groups s3 h3. read_page-IsTurn device_id scanned offset n page groups s3 h3)
                (elements_or_nil items, s2) h2)
            (get page "items", s1) h1)
        (list_groups t c page_size offset s) (list_groups-Adds page_size offset s)

  -- The search has ended, and its calls are as many as there are full pages in the groups not yet
  -- seen, and at most one more.
  abbrev IsBounded : ℕ → ℕ → ComState → Result Search × ComState → Type 0
  IsBounded max_groups scanned s r =
      (r.0 ≢ ok out_of_fuel)
      × ((length r.1.calls ≤ length s.calls)
          ⊎ (length r.1.calls * 100 + scanned < length s.calls * 100 + max_groups + 100))

  module _ (device_id : String) (max_groups : ℕ) where
    next_turn-IsBounded :
        (fuel scanned : ℕ) (s : ComState) (search : ℕ → ℕ → Com Search)
        → ((m o : ℕ) (s' : ComState)
            → 0 < fuel
            → max_groups < m + fuel
            → IsBounded max_groups m s' (search m o s'))
        → scanned < max_groups
        → max_groups < scanned + suc fuel
        → (r : Result Turn × ComState) → IsTurn scanned (length s.calls + 1) r
        → IsBounded max_groups scanned s (and_then (next_turn t search) r)
    next_turn-IsBounded fuel scanned s search ih h enough (raised e, s') turn =
        (λ p. cc, inr (omega arith))
    next_turn-IsBounded fuel scanned s search ih h enough (ok (found g), s') turn =
        (λ p. cc, inr (omega arith))
    next_turn-IsBounded fuel scanned s search ih h enough (ok stop, s') turn =
        (λ p. cc, inr (omega arith))
    next_turn-IsBounded fuel scanned s search ih h enough (ok (go_on m o), s') (turn, more) =
        let (ends, bound) = ih m o s' (omega arith) (omega arith) in
        (ends, inr (elim bound [ inl e ↦ omega arith | inr e ↦ omega arith ]))

    search_pages-IsBounded :
        (fuel scanned offset : ℕ) (s : ComState)
        → 0 < fuel
        → max_groups < scanned + fuel
        → IsBounded max_groups scanned s
            (search_pages t fuel c device_id max_groups scanned offset s)
    unfolding search_pages
    search_pages-IsBounded zero scanned offset s pos enough = absurd (omega arith)
    search_pages-IsBounded (suc fuel) scanned offset s pos enough =
        elim (Bool-cases (ltb scanned max_groups)) [
          | inl e ↦ rw e (
              next_turn-IsBounded fuel scanned s _ (search_pages-IsBounded fuel) (ground (arith, e))
                enough (one_page t c device_id scanned offset s)
                (one_page-IsTurn device_id scanned offset s))
          | inr e ↦ rw e (λ p. cc, inl (omega arith))
        ]

    -- The search for the group of a device always ends, whatever COM answers, and it asks for at most
    -- as many pages as `max_groups` groups fill, at 100 to a page and the last perhaps not full.
    pub find_group_for_device-IsBounded :
        (s : ComState)
        → ((find_group_for_device t c device_id max_groups s).0 ≢ ok out_of_fuel)
          × (length (find_group_for_device t c device_id max_groups s).1.calls * 100
              < length s.calls * 100 + max_groups + 100)
    unfolding find_group_for_device
    find_group_for_device-IsBounded s =
        let (ends, bound) =
          search_pages-IsBounded (suc max_groups) 0 0 s (omega arith) (omega arith) in
        (ends, elim bound [ inl e ↦ omega arith | inr e ↦ omega arith ])
