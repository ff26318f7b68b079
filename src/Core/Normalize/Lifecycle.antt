-- ===== src/Core/Normalize/Lifecycle.antt =====
-- Raise and clear of the server conditions.
use hpe_com_event_integratio.Base.{
  ℕ, String, ◌<>◌, Bool, true, false, List, [], ◌∷◌, ◌≡◌, refl, sym, ap, ◌∙◌, arith, map,
}
use mathlib.Core.Path.{ap₂}
use hpe_com_event_integratio.Python.{Json, Result, ok, raised, ◌>>=◌, ◌or◌, str, get, get_dict}
use hpe_com_event_integratio.Core.Event.{CanonicalEvent, Action, raise, clear}
use hpe_com_event_integratio.Core.Normalize.Environment.{Platform}
use hpe_com_event_integratio.Core.Normalize.AssetId.{split_asset_id}
use hpe_com_event_integratio.Core.Normalize.Monitors.{
  Condition, health, power, connection, subscription, condition_name, enabled_monitors,
}
use hpe_com_event_integratio.Core.Normalize.Conditions.{CondResult, is_abnormal, evaluate}
use hpe_com_event_integratio.Core.Normalize.Server.{
  Snapshot, read_snapshot, server_event, server_events, normalize_server,
}

evaluate-severity :
    (p : Platform) (cond : Condition) (payload name : Json) (res : CondResult)
    → evaluate p cond payload name ≡ ok res
    → res.is_problem ≡ is_abnormal res.severity
unfolding evaluate
evaluate-severity p health payload name res h = ground arith
evaluate-severity p power payload name res h = ground arith
evaluate-severity p connection payload name res h = ground arith
evaluate-severity p subscription payload name res h = ground arith

abbrev pub is_raise : Action → Bool
is_raise raise = true
is_raise clear = false

-- An event of a condition: its correlation key is that of the server and of the condition, whether it
-- raises or clears, and it raises exactly if its severity is not normal.
abbrev pub Reports : String → Condition → CanonicalEvent → Type 0
Reports key_base cond e =
    (e.correlation_key ≡ key_base <> ":" <> condition_name cond)
    × (is_raise e.action ≡ is_abnormal e.severity)

-- One event for each condition, in order.
abbrev pub ReportsAll : String → List Condition → List CanonicalEvent → Type 0
ReportsAll key_base [] [] = Unit
ReportsAll key_base (cond ∷ conds) (e ∷ es) = Reports key_base cond e × ReportsAll key_base conds es
ReportsAll key_base _ _ = ⊥

event-Reports :
    (p : Platform) (payload : Json) (s : Snapshot) (cond : Condition) (res : CondResult) (ip : Json)
    → res.is_problem ≡ is_abnormal res.severity
    → Reports s.key_base cond (server_event p payload s cond res ip)
unfolding server_event
event-Reports p payload s cond res ip h = ground arith

-- Both calls of a sequence return, the second one with `b`.
abbrev pub Returns {ℓ κ} : {A : Type ℓ} {B : Type κ} → B → Result A → (A → Result B) → Type (ℓ ⊔ κ)
Returns {A = A} b m f = (a : A) × (m ≡ ok a) × (f a ≡ ok b)

pub >>=-Returns {ℓ κ} :
    {A : Type ℓ} {B : Type κ} {b : B} (m : Result A) (f : A → Result B)
    → m >>= f ≡ ok b
    → Returns b m f
>>=-Returns (raised e) f h = cc
>>=-Returns (ok a) f h = (a, refl, h)

module _ (p : Platform) (payload : Json) (s : Snapshot) where
  events-ReportsAll :
      (conds : List Condition) (events : List CanonicalEvent)
      → server_events p payload s conds ≡ ok events
      → ReportsAll s.key_base conds events
  unfolding server_events
  events-ReportsAll [] events h = let none_left : [] ≡ events = cc in rw (← none_left) tt
  events-ReportsAll (cond ∷ conds) events h =
      let (res, e, h1) = >>=-Returns (evaluate p cond payload s.name) _ h in
      let (ip, f, h2) = >>=-Returns (get s.bmc "ip") _ h1 in
      let (rest, g, h3) = >>=-Returns (server_events p payload s conds) _ h2 in
      let all : server_event p payload s cond res ip ∷ rest ≡ events = cc in
      rw (← all) (
        event-Reports p payload s cond res ip (evaluate-severity p cond payload s.name res e),
        events-ReportsAll conds rest g,
      )

-- The part of a snapshot that says which server it is about: its serial number and its id.
unfoldable pub identity : Json → Result (Json × Json)
identity payload = do
  hw ← get_dict payload "hardware"
  own_serial ← get hw "serialNumber"
  id ← get payload "id"
  ok (own_serial, id)

unfoldable pub identity_key : (Json → String) → Json × Json → Result String
identity_key repr (own_serial, id) = do
  ids ← split_asset_id id
  ok ("server:" <> str repr (own_serial or ids.1 or id))

snapshot-key :
    (p : Platform) (payload : Json) (s : Snapshot)
    → read_snapshot p payload ≡ ok s
    → (identity payload >>= identity_key p.repr) ≡ ok s.key_base
unfolding read_snapshot identity identity_key
snapshot-key p payload s h = ground arith

-- The correlation keys of a server's conditions.
abbrev condition_keys : String → List Condition → List String
condition_keys base conds = map (λ cond. base <> ":" <> condition_name cond) conds

keys-ReportsAll :
    (base : String) (conds : List Condition) (events : List CanonicalEvent)
    → ReportsAll base conds events
    → map (λ e. e.correlation_key) events ≡ condition_keys base conds
keys-ReportsAll base [] [] h = refl
keys-ReportsAll base (cond ∷ conds) (e ∷ es) h = rw (h.0.0, keys-ReportsAll base conds es h.1)
keys-ReportsAll base _ _ h = absurd h

-- A server snapshot that normalises yields one event for each enabled monitor, in their order. The
-- event of a monitor is keyed by the server's serial number or id and by the monitor, and it raises
-- exactly if its severity is not normal.
pub normalize_server-ReportsAll :
    (p : Platform) (payload : Json) (events : List CanonicalEvent)
    → normalize_server p payload ≡ ok events
    → (base : String) × (conds : List Condition) × ((identity payload >>= identity_key p.repr)
        ≡ ok base)
      × (enabled_monitors p.server_monitors ≡ ok conds)
      × ReportsAll base conds events
unfolding normalize_server
normalize_server-ReportsAll p payload events h =
    let (s, e, h1) = >>=-Returns (read_snapshot p payload) _ h in
    let (conds, f, h2) = >>=-Returns (enabled_monitors p.server_monitors) _ h1 in
    (
      s.key_base,
      conds,
      snapshot-key p payload s e,
      f,
      events-ReportsAll p payload s conds events h2,
    )

-- Two snapshots of one server, taken at any two times and differing in everything but the serial
-- number and the id, have the same correlation keys, monitor by monitor: what one raises the other
-- clears under the same key.
pub normalize_server-correlates :
    (p : Platform) (later : ℕ) (before after : Json) (es fs : List CanonicalEvent)
    → identity before ≡ identity after
    → normalize_server p before ≡ ok es
    → normalize_server (record p { now = later }) after ≡ ok fs
    → map (λ e. e.correlation_key) es ≡ map (λ e. e.correlation_key) fs
normalize_server-correlates p later before after es fs same h k =
    let (base, conds, b, m, r) = normalize_server-ReportsAll p before es h in
    let (base', conds', b', m', r') =
      normalize_server-ReportsAll (record p { now = later }) after fs k in
    let one = keys-ReportsAll base conds es r in
    let two = keys-ReportsAll base' conds' fs r' in
    let mid = ap (λ (r : Result (Json × Json)). r >>= identity_key p.repr) same in
    let bases : base ≡ base' = cc in
    let monitors : conds ≡ conds' = cc in one ∙ ap₂ condition_keys bases monitors ∙ sym two
