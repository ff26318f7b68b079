-- ===== src/Core/Adapters/Chat/Clipped.antt =====
-- The length of what goes to a chat.
use Prim.Native.String.append
use hpe_com_event_integratio.Base.{
  ℕ, zero, suc, ◌+◌, ◌-◌, ◌≤◌, ◌<◌, String, ◌<>◌, ◌≡◌, arith, Bool-cases, inl, inr, leb, leb→le,
}
use hpe_com_event_integratio.Base.Text.{prefix}
use hpe_com_event_integratio.Python.{Json, text, ok, get, str}
use hpe_com_event_integratio.Core.Event.{CanonicalEvent}
use hpe_com_event_integratio.Core.Normalize.Lifecycle.{>>=-Returns}
use hpe_com_event_integratio.Core.Render.{Formats}
use hpe_com_event_integratio.Core.Adapters.Chat.{char_count, clip, headline, read_references}
use hpe_com_event_integratio.Core.Adapters.Chat.Slack.{header, to_message, description_blocks}

char_count-append : (s t : String) → char_count (s <> t) ≡ char_count s + char_count t
unfolding char_count
char_count-append String.[] t = rw (append.nil t) (omega arith)
char_count-append (String.◌∷◌ c s) t = rw (append.cons c s t) (omega (arith, char_count-append s t))

char_count-prefix : (n : ℕ) (s : String) → char_count (prefix n s) ≤ n
unfolding char_count prefix
char_count-prefix zero s = omega arith
char_count-prefix (suc n) String.[] = omega arith
char_count-prefix (suc n) (String.◌∷◌ c s) = omega (arith, char_count-prefix n s)

ellipsis : (s : String) (limit : ℕ) → 0 < limit → char_count (prefix (limit - 1) s <> "…") ≤ limit
unfolding char_count
ellipsis s limit pos =
    omega
      (arith, pos, char_count-append (prefix (limit - 1) s) "…", char_count-prefix (limit - 1) s)

-- A clipped text is within its limit.
pub clip-bounded : (s : String) (limit : ℕ) → 0 < limit → char_count (clip s limit) ≤ limit
unfolding clip
clip-bounded s limit pos = elim (Bool-cases (leb (char_count s) limit)) [
  | inl e ↦ rw e (leb→le (char_count s) limit e)
  | inr e ↦ rw e (ellipsis s limit pos)
]

to_message-text :
    (username : String) (f : Formats) (e : CanonicalEvent) (m : Json)
    → to_message username f e ≡ ok m
    → get m "text" ≡ ok (text (header f e))
unfolding to_message get hpe_com_event_integratio.Core.Adapters.fields
to_message-text username f e m h =
    let (described, d, h1) = >>=-Returns (description_blocks e.description) _ h in
    let (refs, r, h2) = >>=-Returns (read_references f e.advisory_references) _ h1 in
    ground (arith, h2)

-- The fallback text of a Slack message, which is its header too, has at most the 150 characters that
-- Slack takes for a header, however long the title of the event is.
to_message-header :
    (username : String) (f : Formats) (e : CanonicalEvent) (m : Json)
    → to_message username f e ≡ ok m
    → (s : String) × (get m "text" ≡ ok (text s)) × (char_count s ≤ 150)
unfolding header
to_message-header username f e m h = (
  header f e,
  to_message-text username f e m h,
  clip-bounded (headline e <> " — " <> str f.repr e.title) 150 (omega arith),
)
