-- ===== src/Core/Normalize/Pairs.antt =====
-- An alert and its recovery.
use hpe_com_event_integratio.Base.{
  String, ◌<>◌, true, false, [], ◌∷◌, ◌≡◌, ◌≢◌, ◌⊎◌, inl, inr, ap, sym, ◌∙◌, arith, eq_iff,
}
use hpe_com_event_integratio.Base.Text.{join, lower}
use hpe_com_event_integratio.Base.TextLaws.{append_cancel_left, append_differs}
use hpe_com_event_integratio.Python.{
  Json, text, Result, ok, raised, ◌or◌, is_truthy, get, get_or, str,
}
use hpe_com_event_integratio.Core.Normalize.AssetId.{split_asset_id}
use hpe_com_event_integratio.Core.Normalize.Severity.{map_alert_severity}
use hpe_com_event_integratio.Core.Normalize.Lifecycle.{>>=-Returns}
use hpe_com_event_integratio.Core.Event.{
  CanonicalEvent, Action, raise, clear, action_text, severity_text,
}
use hpe_com_event_integratio.Core.Normalize.Environment.{Platform, dedup_hash}
use hpe_com_event_integratio.Core.Normalize.Alert.{
  normalize_alert, alert_action, dict_or_empty, headline,
}

-- COM says that the alert is over: `cleared` or `clearedAt` is set, or the operation is "deleted", in
-- whatever case of its letters.
abbrev pub IsOver : Json → Type 0
IsOver payload =
    ((j : Json) × (get payload "cleared" ≡ ok j) × (is_truthy j ≡ true))
    ⊎ (((j : Json) × (get payload "clearedAt" ≡ ok j) × (is_truthy j ≡ true))
        ⊎ ((s : String) × (get_or payload "operation" (text "") ≡ ok (text s))
            × (lower s ≡ "deleted")))

-- It says nothing of the kind.
abbrev pub IsOpen : Json → Type 0
IsOpen payload =
    ((j : Json) × (get payload "cleared" ≡ ok j) × (is_truthy j ≡ false))
    × ((j : Json) × (get payload "clearedAt" ≡ ok j) × (is_truthy j ≡ false))
    × ((s : String) × (get_or payload "operation" (text "") ≡ ok (text s)) × (lower s ≢ "deleted"))

-- What the action is decided by.
abbrev ActsOn : Platform → Json → CanonicalEvent → Type 0
ActsOn p payload e =
    (cleared : Json) × (cleared_at : Json) × (op : Json) × (get payload "cleared" ≡ ok cleared)
    × (get payload "clearedAt" ≡ ok cleared_at)
    × (get_or payload "operation" (text "") ≡ ok op)
    × (e.action ≡ alert_action cleared cleared_at (str p.repr (op or text "")))

action_in : Result CanonicalEvent → Action
action_in (ok e) = e.action
action_in (raised e) = raise

alert-ActsOn :
    (p : Platform) (payload : Json) (e : CanonicalEvent)
    → normalize_alert p payload ≡ ok e
    → ActsOn p payload e
unfolding normalize_alert action_in
alert-ActsOn p payload e h =
    let (device, e1, h1) = >>=-Returns (get payload "device") _ h in
    let (device_id, e2, h2) = >>=-Returns (get (dict_or_empty device) "id") _ h1 in
    let (ids, e3, h3) = >>=-Returns (split_asset_id device_id) _ h2 in
    let (reported, e4, h4) = >>=-Returns (get payload "severity") _ h3 in
    let (severity, e5, h5) = >>=-Returns (map_alert_severity reported) _ h4 in
    let (cleared, e6, h6) = >>=-Returns (get payload "cleared") _ h5 in
    let (cleared_at, e7, h7) = >>=-Returns (get payload "clearedAt") _ h6 in
    let (op, e8, h8) = >>=-Returns (get_or payload "operation" (text "")) _ h7 in
    let (id, e9, h9) = >>=-Returns (get_or payload "id" (text "")) _ h8 in
    let (description, e10, h10) = >>=-Returns (get payload "description") _ h9 in
    let (message_id, e11, h11) = >>=-Returns (get payload "messageId") _ h10 in
    let (title, e12, h12) =
      >>=-Returns (headline (str p.repr (description or message_id or text "COM alert"))) _ h11 in
    let (created, e13, h13) = >>=-Returns (get payload "createdAt") _ h12 in
    let (resolution, e14, h14) = >>=-Returns (get payload "resolution") _ h13 in
    let (category, e15, h15) = >>=-Returns (get payload "category") _ h14 in
    let (alert_type, e16, h16) = >>=-Returns (get payload "alertType") _ h15 in
    (cleared, cleared_at, op, e6, e7, e8, sym (ap action_in h16))

text-str : (p : Platform) (s : String) → str p.repr (text s or text "") ≡ s
unfolding str
text-str p s = ground (arith, eq_iff s "")

operation_text :
    (p : Platform) (payload op : Json) (s : String)
    → get_or payload "operation" (text "") ≡ ok op
    → get_or payload "operation" (text "") ≡ ok (text s)
    → str p.repr (op or text "") ≡ s
operation_text p payload op s e k = let same : text s ≡ op = cc in rw (← same) (text-str p s)

over-clears :
    (p : Platform) (payload : Json) (e : CanonicalEvent)
    → ActsOn p payload e
    → IsOver payload
    → e.action ≡ clear
over-clears p payload e (cleared, at, op, e1, e2, e3, h) (inl (j, k, t)) =
    let same : j ≡ cleared = cc in
    let set : is_truthy cleared ≡ true = ap is_truthy (sym same) ∙ t in ground (arith, h, set)
over-clears p payload e (cleared, at, op, e1, e2, e3, h) (inr (inl (j, k, t))) =
    let same : j ≡ at = cc in
    let set : is_truthy at ≡ true = ap is_truthy (sym same) ∙ t in ground (arith, h, set)
over-clears p payload e (cleared, at, op, e1, e2, e3, h) (inr (inr (s, k, t))) =
    let operation : str p.repr (op or text "") ≡ s = operation_text p payload op s e3 k in
    let low : lower (str p.repr (op or text "")) ≡ "deleted" = ap lower operation ∙ t in
    ground (arith, h, low, eq_iff (lower (str p.repr (op or text ""))) "deleted")

open-raises :
    (p : Platform) (payload : Json) (e : CanonicalEvent)
    → ActsOn p payload e
    → IsOpen payload
    → e.action ≡ raise
open-raises p payload e (cleared, at, op, e1, e2, e3, h) ((j, k, t), (j', k', t'), (s, m, n)) =
    let same : j ≡ cleared = cc in
    let same' : j' ≡ at = cc in
    let unset : is_truthy cleared ≡ false = ap is_truthy (sym same) ∙ t in
    let unset' : is_truthy at ≡ false = ap is_truthy (sym same') ∙ t' in
    let operation : str p.repr (op or text "") ≡ s = operation_text p payload op s e3 m in
    let other : lower (str p.repr (op or text "")) ≢ "deleted" =
      λ same_text. n (ap lower (sym operation) ∙ same_text) in
    ground (arith, h, unset, unset', other, eq_iff (lower (str p.repr (op or text ""))) "deleted")

pub alert-keys :
    (p : Platform) (payload : Json) (e : CanonicalEvent)
    → normalize_alert p payload ≡ ok e
    → (e.correlation_key ≡ "alert:" <> e.event_id)
      × (e.dedup_key
          ≡ dedup_hash p (e.correlation_key ∷ action_text e.action ∷ severity_text e.severity ∷ []))
unfolding normalize_alert
alert-keys p payload e h = ground arith

actions_differ :
    (key x y : String) → key <> "|" <> "raise" <> "|" <> x ≢ key <> "|" <> "clear" <> "|" <> y
actions_differ key x y e =
    append_differs "r" "c" "aise" "lear" ("|" <> x) ("|" <> y) (omega arith)
      (append_cancel_left "|" _ _ (append_cancel_left key _ _ e))

-- The text that the de-duplication key of an alert is the digest of.
abbrev pub hashed_text : CanonicalEvent → String → String
hashed_text e action = e.correlation_key <> "|" <> action <> "|" <> severity_text e.severity

-- An alert that is open raises; a later payload of the same alert that says it is over, being cleared
-- or deleted, clears; both have the correlation key that is made of the alert's id, so that a target
-- can close what it opened; and their de-duplication keys are the digests of two different texts, so
-- that the recovery is not suppressed as a repeat unless SHA-1 gives these two the same digest.
pub normalize_alert-pair :
    (p : Platform) (opened closed : Json) (e f : CanonicalEvent)
    → normalize_alert p opened ≡ ok e
    → normalize_alert p closed ≡ ok f
    → e.event_id ≡ f.event_id
    → IsOpen opened
    → IsOver closed
    → (e.action ≡ raise)
      × (f.action ≡ clear)
      × (e.correlation_key ≡ "alert:" <> e.event_id)
      × (f.correlation_key ≡ "alert:" <> e.event_id)
      × (e.dedup_key ≡ p.sha1 (hashed_text e "raise"))
      × (f.dedup_key ≡ p.sha1 (hashed_text f "clear"))
      × (hashed_text e "raise" ≢ hashed_text f "clear")
unfolding dedup_hash join
normalize_alert-pair p opened closed e f h k same is_open is_over =
    let one = alert-keys p opened e h in
    let two = alert-keys p closed f k in
    let up = open-raises p opened e (alert-ActsOn p opened e h) is_open in
    let down = over-clears p closed f (alert-ActsOn p closed f k) is_over in
    let key : e.correlation_key ≡ f.correlation_key = cc in
    (
      up,
      down,
      one.0,
      two.0 ∙ ap (λ (id : String). "alert:" <> id) (sym same),
      (rw up at one.1),
      (rw down at two.1),
      λ equal.
          actions_differ f.correlation_key (severity_text e.severity) (severity_text f.severity)
            (rw key at equal),
    )
