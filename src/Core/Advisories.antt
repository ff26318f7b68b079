-- ===== src/Core/Advisories.antt =====
-- com-event-core/com_event_core/enrich/hpe_advisories.py: the gate, the cache and the choice of the
-- advisories; the look-ups in COM are in Lookup. Times are seconds; the lock makes each call of the
-- cache one step.
pub mod Cache
pub mod Relevance
pub mod Patterns
pub mod Page
pub mod Source
pub mod Sections
pub mod Bundle
pub mod Lookup
pub mod Effects
use hpe_com_event_integratio.Base.{
  ℕ, ◌+◌, String, ◌<>◌, Bool, true, false, List, [], ◌∷◌, ◌++◌, Option, none, some, not, ◌||◌, ◌&&◌,
  ◌==◌, contains, length, ltb, leb, any, if◌then◌else◌,
}
use Prim.Native.Char.{code}
use hpe_com_event_integratio.Base.Dict.{lookup, insert}
use hpe_com_event_integratio.Base.Text.{lower, strip}
use hpe_com_event_integratio.Python.{
  Json, null, text, object, field, end, Result, ok, raised, value_error, ◌>>=◌, is_truthy, get,
  as_text,
}
use hpe_com_event_integratio.Core.Event.{
  CanonicalEvent, Severity, normal, warning, minor, major, critical, Action, raise, clear,
  SourceType, server, alert, generic,
}

-- `_SEVERITY_RANK`
abbrev pub severity_rank : Severity → ℕ
severity_rank normal = 0
severity_rank warning = 1
severity_rank minor = 2
severity_rank major = 3
severity_rank critical = 4

-- HPE_ADVISORIES_MIN_SEVERITY, as the constructor reads it.
unfoldable pub rank_of : String → Result ℕ
rank_of s =
    if s == "normal"
    then ok 0
    else if s == "warning"
    then ok 1
    else if s == "minor"
    then ok 2
    else if s == "major"
    then ok 3
    else if s == "critical"
    then ok 4
    else raised value_error

abbrev pub threshold : String → Result ℕ
threshold raw = rank_of (lower (strip raw))

abbrev pub is_server : SourceType → Bool
is_server server = true
is_server _ = false

abbrev pub is_raised : Action → Bool
is_raised raise = true
is_raised clear = false

unfoldable pub wants : ℕ → CanonicalEvent → Bool
wants min_rank e =
    is_raised e.action && not (ltb (severity_rank e.severity) min_rank) && is_server e.source_type

abbrev pub older : String × ℕ → Option (String × ℕ) → String × ℕ
older first none = first
older (j, at) (some (k, other)) = if leb at other then (j, at) else (k, other)

module _ {ℓ} {V : Type ℓ} where
  -- `_data`, in the order of insertion: for each key when it was stored, and the value.
  unfoldable pub pop : String → List (String × (ℕ × V)) → List (String × (ℕ × V))
  pop k [] = []
  pop k ((j, (at, v)) ∷ data_) = if j == k then data_ else (j, (at, v)) ∷ pop k data_

  -- `min(self._data, key=lambda k: self._data[k][0])`
  unfoldable pub oldest : List (String × (ℕ × V)) → Option (String × ℕ)
  oldest [] = none
  oldest ((j, (at, v)) ∷ data_) = some (older (j, at) (oldest data_))

  abbrev hit :
      ℕ → ℕ → String → Option (ℕ × V) → List (String × (ℕ × V)) → Option V × List (String × (ℕ × V))
  hit ttl now k none data_ = (none, data_)
  hit ttl now k (some (at, v)) data_ =
      if ltb (at + ttl) now then (none, pop k data_) else (some v, data_)

  -- `get`; a `ttl` of 0 stands for every one that is not positive.
  unfoldable pub cache_get :
      ℕ → ℕ → String → List (String × (ℕ × V)) → Option V × List (String × (ℕ × V))
  cache_get ttl now k data_ =
      if leb ttl 0 then (none, data_) else hit ttl now k (lookup k data_) data_

  abbrev pub evict : Option (String × ℕ) → List (String × (ℕ × V)) → List (String × (ℕ × V))
  evict none data_ = data_
  evict (some (k, at)) data_ = pop k data_

  -- `put`, for `max_entries`.
  unfoldable pub cache_put :
      ℕ → ℕ → ℕ → String → V → List (String × (ℕ × V)) → List (String × (ℕ × V))
  cache_put ttl max_entries now k v data_ =
      let kept = if leb max_entries (length data_) then evict (oldest data_) data_ else data_ in
      if leb ttl 0 then data_ else insert k (now, v) kept

-- `_STOPWORDS`
abbrev pub stopwords : List String
stopwords =
    "this" ∷ "that" ∷ "with" ∷ "from" ∷ "into" ∷ "have" ∷ "has" ∷ "had" ∷ "were" ∷ "will" ∷ "when"
    ∷ "returned" ∷ "server" ∷ "healthy" ∷ "status" ∷ "hardware" ∷ "health" ∷ "summary" ∷ "unknown"
    ∷ "operation" ∷ "updated" ∷ "normal" ∷ "warning" ∷ "minor" ∷ "major" ∷ "critical" ∷ "advisory"
    ∷ "advisories" ∷ "notice" ∷ "revision" ∷ "message" ∷ []

-- `[a-z0-9]`
unfoldable pub is_word_char : ℕ → Bool
is_word_char n = (leb b'a' n && leb n b'z') || (leb b'0' n && leb n b'9')

-- At least four characters.
unfoldable pub is_long : String → Bool
is_long (String.◌∷◌ a (String.◌∷◌ b (String.◌∷◌ c (String.◌∷◌ d s)))) = true
is_long _ = false

abbrev pub flush : String → List String
flush w = if is_long w && not (contains stopwords w) then w ∷ [] else []

-- The longest runs of `[a-z0-9]`, at least four characters long and no stop word; the first argument
-- is the run so far.
unfoldable pub words : String → String → List String
words run String.[] = flush run
words run (String.◌∷◌ c s) =
    (if is_word_char (code c) then [] else flush run)
    ++ words (if is_word_char (code c) then run <> String.◌∷◌ c String.[] else "") s

-- `_keywords`, as a list.
unfoldable pub keywords : List Json → Result (List String)
unfolding words
keywords [] = ok []
keywords (j ∷ js) = do
  s ← if is_truthy j then as_text j else ok ""
  rest ← keywords js
  ok (words "" (lower s) ++ rest)

-- `event_words & ca_words`
unfoldable pub overlap : List String → List String → Bool
overlap [] ws = false
overlap (v ∷ vs) ws = contains ws v || overlap vs ws

-- `{"status": status, "id": ca.get("id"), ...}`
unfoldable pub reference : String → Json → Result Json
reference status ca = do
  id ← get ca "id"
  title ← get ca "title"
  component ← get ca "component"
  url ← get ca "url"
  ok (
      object (
        field "status" (text status) (
          field "id" id (
            field "title" title (
              field "component" component
                (field "summary" null (field "resolution" null (field "url" url end))))))))

unfoldable pub advisory_words : Json → Result (List String)
unfolding keywords
advisory_words ca = do
  title ← get ca "title"
  component ← get ca "component"
  keywords (title ∷ component ∷ [])

-- The loop of `_relevant`.
unfoldable pub matching : List String → String → List Json → Result (List Json)
matching event_words status [] = ok []
matching event_words status (ca ∷ cas) = do
  ws ← advisory_words ca
  ref ← reference status ca
  rest ← matching event_words status cas
  ok (if overlap event_words ws then ref ∷ rest else rest)

unfoldable pub relevant : CanonicalEvent → List Json → String → Result (List Json)
unfolding matching
relevant e cas status = do
  event_words ← keywords (e.title ∷ e.description ∷ e.category ∷ [])
  matching event_words status cas
