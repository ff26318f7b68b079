-- ===== src/Core/Compliance/Membership.antt =====
-- The group that the search finds has the device, and the record taken from it is the device's.
use hpe_com_event_integratio.Base.{
  ℕ, zero, suc, ◌+◌, String, Bool, true, false, List, [], ◌∷◌, Option, none, some, ◌≡◌, inl, inr,
  arith, length, ltb, Bool-cases, Any, ◌⊎◌, ap, ◌∙◌, eq_iff,
}
use hpe_com_event_integratio.Python.{
  Json, Result, ok, raised, Result-cases, get, elements_or_nil, text, equals_text,
}
use hpe_com_event_integratio.Core.Normalize.Lifecycle.{>>=-Returns}
use hpe_com_event_integratio.Core.Com.{Client, Transport, Com, ComState, list_groups, and_then}
use hpe_com_event_integratio.Core.Com.Steps.{OnOk, and_then-OnOk}
use hpe_com_event_integratio.Core.Compliance.Records.{first_where, has_device, is_device, is_some}
use hpe_com_event_integratio.Core.Compliance.{
  Turn, found, stop, go_on, Search, group_found, no_group, out_of_fuel, settle_page, read_page,
  one_page, next_turn, search_pages, find_group_for_device, is_last, turn_after, page_size,
}

first_where-passes :
    (p : Json → Result Bool) (js : List Json) (j : Json)
    → first_where p js ≡ ok (some j)
    → p j ≡ ok true
unfolding first_where
first_where-passes p [] j h = cc
first_where-passes p (i ∷ js) j h = elim (Result-cases (p i)) [
  | inr (x, e) ↦ absurd (ground (arith, h, e))
  | inl (true, e) ↦ let same : i ≡ j = ground (arith, h, e) in rw (← same) e
  | inl (false, e) ↦ first_where-passes p js j (ground (arith, h, e))
]

first_where-Any :
    (P : Json → Type 0) (p : Json → Result Bool) (js : List Json) (j : Json)
    → ((i : Json) → p i ≡ ok true → P i)
    → first_where p js ≡ ok (some j)
    → Any P js
unfolding first_where
first_where-Any P p [] j f h = cc
first_where-Any P p (i ∷ js) j f h = elim (Result-cases (p i)) [
  | inr (x, e) ↦ absurd (ground (arith, h, e))
  | inl (true, e) ↦ inl (f i e)
  | inl (false, e) ↦ inr (first_where-Any P p js j f (ground (arith, h, e)))
]

-- One of the two ids of the device is the given one.
abbrev pub IsCalled : String → Json → Type 0
IsCalled device_id d = (get d "deviceId" ≡ ok (text device_id)) ⊎ (get d "id" ≡ ok (text device_id))

-- The group has such a device in its list.
abbrev pub HasDevice : String → Json → Type 0
HasDevice device_id group =
    (j : Json) × (devices : List Json) × (get group "devices" ≡ ok j)
    × (elements_or_nil j ≡ ok devices)
    × Any (IsCalled device_id) devices

equals_text-same : (j : Json) (s : String) → equals_text j s ≡ true → j ≡ text s
equals_text-same (text t) s h = ap text ((eq_iff t s).0 h)
equals_text-same _ s h = cc

is_device-IsCalled :
    (device_id : String) (d : Json) → is_device device_id d ≡ ok true → IsCalled device_id d
unfolding is_device
is_device-IsCalled device_id d h =
    let (a, e, h1) = >>=-Returns (get d "deviceId") _ h in
    let (b, k, h2) = >>=-Returns (get d "id") _ h1 in
    elim (Bool-cases (equals_text a device_id)) [
      | inl same ↦ inl (e ∙ ap ok (equals_text-same a device_id same))
      | inr other ↦ inr (k ∙ ap ok (equals_text-same b device_id (ground (arith, h2, other))))
    ]

some_device :
    (device_id : String) (devices : List Json) (device : Option Json)
    → first_where (is_device device_id) devices ≡ ok device
    → ok (is_some device) ≡ ok true
    → Any (IsCalled device_id) devices
some_device device_id devices none f h = cc
some_device device_id devices (some d) f h =
    first_where-Any (IsCalled device_id) (is_device device_id) devices d
      (is_device-IsCalled device_id) f

has_device-HasDevice :
    (device_id : String) (group : Json)
    → has_device device_id group ≡ ok true
    → HasDevice device_id group
unfolding has_device
has_device-HasDevice device_id group h =
    let (j, e, h1) = >>=-Returns (get group "devices") _ h in
    let (devices, k, h2) = >>=-Returns (elements_or_nil j) _ h1 in
    let (device, f, h3) = >>=-Returns (first_where (is_device device_id) devices) _ h2 in
    (j, devices, e, k, some_device device_id devices device f h3)

module _ (t : Transport) (c : Client) (device_id : String) where
  -- A group that a page yields has the device.
  abbrev HasIt : Turn → Type 0
  HasIt (found g) = HasDevice device_id g
  HasIt _ = Unit

  turn_after-HasIt : (scanned offset : ℕ) (last : Bool) → HasIt (turn_after t scanned offset last)
  turn_after-HasIt scanned offset true = tt
  turn_after-HasIt scanned offset false = tt

  settle_page-HasIt :
      (items : List Json) (scanned offset : ℕ) (page : Json) (o : Option Json) (s : ComState)
      → first_where (has_device device_id) items ≡ ok o
      → OnOk HasIt (settle_page t items scanned offset page o s)
  unfolding settle_page
  settle_page-HasIt items scanned offset page (some g) s h =
      has_device-HasDevice device_id g (first_where-passes (has_device device_id) items g h)
  settle_page-HasIt items scanned offset page none s h =
      and_then-OnOk HasIt _
        (λ total s1.
          and_then-OnOk HasIt _ (λ last s2. turn_after-HasIt _ _ last)
            (is_last t (length items) (offset + length items) total, s1))
        (get page "total", s)

  read_page-HasIt :
      (scanned offset : ℕ) (page : Json) (groups : List Json) (s : ComState)
      → OnOk HasIt (read_page t device_id scanned offset page groups s)
  read_page-HasIt scanned offset page [] s = tt
  read_page-HasIt scanned offset page (j ∷ js) s =
      elim (Result-cases (first_where (has_device device_id) (j ∷ js))) [
        | inl (o, e) ↦ rw e (settle_page-HasIt (j ∷ js) scanned offset page o s e)
        | inr (x, e) ↦ rw e tt
      ]

  one_page-HasIt :
      (scanned offset : ℕ) (s : ComState) → OnOk HasIt (one_page t c device_id scanned offset s)
  unfolding one_page
  one_page-HasIt scanned offset s =
      and_then-OnOk HasIt _
        (λ page s1.
          and_then-OnOk HasIt _
            (λ items s2.
              and_then-OnOk HasIt _ (λ groups s3. read_page-HasIt scanned offset page groups s3)
                (elements_or_nil items, s2))
            (get page "items", s1))
        (list_groups t c page_size offset s)

  abbrev FoundHasIt : Search → Type 0
  FoundHasIt (group_found g) = HasDevice device_id g
  FoundHasIt _ = Unit

  next_turn-HasIt :
      (search : ℕ → ℕ → Com Search)
      → ((m o : ℕ) (s : ComState) → OnOk FoundHasIt (search m o s))
      → (r : Result Turn × ComState) → OnOk HasIt r
      → OnOk FoundHasIt (and_then (next_turn t search) r)
  next_turn-HasIt search ih (raised e, s) h = tt
  next_turn-HasIt search ih (ok (found g), s) h = h
  next_turn-HasIt search ih (ok stop, s) h = tt
  next_turn-HasIt search ih (ok (go_on m o), s) h = ih m o s

  search_pages-HasIt :
      (fuel max_groups scanned offset : ℕ) (s : ComState)
      → OnOk FoundHasIt (search_pages t fuel c device_id max_groups scanned offset s)
  unfolding search_pages
  search_pages-HasIt zero max_groups scanned offset s = tt
  search_pages-HasIt (suc fuel) max_groups scanned offset s =
      elim (Bool-cases (ltb scanned max_groups)) [
        | inl e ↦ rw e (
            next_turn-HasIt _ (search_pages-HasIt fuel max_groups)
              (one_page t c device_id scanned offset s) (one_page-HasIt scanned offset s))
        | inr e ↦ rw e tt
      ]

  OnOk-found :
      (r : Result Search × ComState) (g : Json)
      → OnOk FoundHasIt r
      → r.0 ≡ ok (group_found g)
      → HasDevice device_id g
  OnOk-found (ok (group_found g'), s) g h e = let same : g' ≡ g = cc in rw (← same) h
  OnOk-found (ok no_group, s) g h e = cc
  OnOk-found (ok out_of_fuel, s) g h e = cc
  OnOk-found (raised x, s) g h e = cc

  -- A group that the search returns lists under `devices` one whose `deviceId` or `id` is the id that
  -- was looked for.
  pub find_group_for_device-HasDevice :
      (max_groups : ℕ) (s : ComState) (g : Json)
      → (find_group_for_device t c device_id max_groups s).0 ≡ ok (group_found g)
      → HasDevice device_id g
  unfolding find_group_for_device
  find_group_for_device-HasDevice max_groups s g h =
      OnOk-found (search_pages t (suc max_groups) c device_id max_groups 0 0 s) g
        (search_pages-HasIt (suc max_groups) max_groups 0 0 s) h
