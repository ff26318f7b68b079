-- ===== src/Core/Advisories/Relevance.antt =====
-- Which advisories are attached.
use hpe_com_event_integratio.Base.{
  String, ◌<>◌, true, false, List, [], ◌∷◌, ◌++◌, ◌≡◌, ◌⊎◌, inl, inr, refl, arith, All, Any,
  All-append, Bool-cases, contains, ◌==◌, ◌&&◌, not, eq_iff, if◌then◌else◌,
}
use Prim.Native.Char.{Char, code}
use Prim.Native.String.append
use hpe_com_event_integratio.Base.TextLaws.{append_assoc}
use hpe_com_event_integratio.Base.Text.{lower}
use hpe_com_event_integratio.Python.{Json, text, ok, get, is_truthy, as_text, as_text-text}
use hpe_com_event_integratio.Core.Event.{CanonicalEvent}
use hpe_com_event_integratio.Core.Normalize.Lifecycle.{>>=-Returns}
use hpe_com_event_integratio.Core.Advisories.{
  keywords, advisory_words, overlap, words, flush, is_long, is_word_char, stopwords, reference,
  matching, relevant,
}

-- A word of at least four characters that is no stop word.
abbrev pub IsKeyword : String → Type 0
IsKeyword w = (is_long w ≡ true) × (contains stopwords w ≡ false)

-- Some keyword is in both lists.
abbrev pub SharesWord : List String → List String → Type 0
SharesWord vs ws =
    (w : String) × IsKeyword w × Any (λ (v : String). v ≡ w) vs × Any (λ (v : String). v ≡ w) ws

contains-Any :
    (ws : List String) (w : String) → contains ws w ≡ true → Any (λ (v : String). v ≡ w) ws
unfolding contains
contains-Any [] w h = cc
contains-Any (v ∷ ws) w h = elim (Bool-cases (v == w)) [
  | inl e ↦ inl ((eq_iff v w).0 e)
  | inr e ↦ inr (contains-Any ws w (ground (arith, h, e)))
]

overlap-SharesWord :
    (vs ws : List String) → All IsKeyword vs → overlap vs ws ≡ true → SharesWord vs ws
unfolding overlap
overlap-SharesWord [] ws k h = cc
overlap-SharesWord (v ∷ vs) ws (p, k) h = elim (Bool-cases (contains ws v)) [
  | inl e ↦ (v, p, inl refl, contains-Any ws v e)
  | inr e ↦ let (w, q, a, b) = overlap-SharesWord vs ws k (ground (arith, h, e)) in (w, q, inr a, b)
]

flush-IsKeyword : (w : String) → All IsKeyword (flush w)
flush-IsKeyword w = elim (Bool-cases (is_long w)) [
  | inr e ↦ rw e tt
  | inl e ↦ elim (Bool-cases (contains stopwords w)) [
    | inl f ↦ rw (e, f) tt
    | inr f ↦ rw (e, f) ((e, f), tt)
  ]
]

words-IsKeyword : (run s : String) → All IsKeyword (words run s)
unfolding words
words-IsKeyword run String.[] = flush-IsKeyword run
words-IsKeyword run (String.◌∷◌ c s) = elim (Bool-cases (is_word_char (code c))) [
  | inl e ↦ rw e (words-IsKeyword (run <> String.◌∷◌ c String.[]) s)
  | inr e ↦
      rw e
        (All-append IsKeyword (flush run) (words "" s) (flush-IsKeyword run) (words-IsKeyword "" s))
]

keywords-IsKeyword : (js : List Json) (ws : List String) → keywords js ≡ ok ws → All IsKeyword ws
unfolding keywords
keywords-IsKeyword [] ws h = let same : [] ≡ ws = cc in rw (← same) tt
keywords-IsKeyword (j ∷ js) ws h =
    let (s, e, h1) = >>=-Returns (if is_truthy j then as_text j else ok "") _ h in
    let (rest, r, h2) = >>=-Returns (keywords js) _ h1 in
    let same : words "" (lower s) ++ rest ≡ ws = cc in
    rw (← same) (
      All-append IsKeyword (words "" (lower s)) rest (words-IsKeyword "" (lower s))
        (keywords-IsKeyword js rest r))

-- The first text stands in the second.
abbrev pub IsIn : String → String → Type 0
IsIn w t = (before : String) × (after : String) × (t ≡ before <> (w <> after))

-- The word stands in one of the given texts, but for the case of its letters.
abbrev pub IsWordOf : List Json → String → Type 0
IsWordOf js w = Any (λ (j : Json). (s : String) × (j ≡ text s) × IsIn w (lower s)) js

flush-All : (P : String → Type 0) (w : String) → P w → All P (flush w)
flush-All P w p = elim (Bool-cases (is_long w && not (contains stopwords w))) [
  | inl e ↦ rw e (p, tt)
  | inr e ↦ rw e tt
]

one_char : (c : Char) (s : String) → String.◌∷◌ c String.[] <> s ≡ String.◌∷◌ c s
one_char c s = cc (append.cons c String.[] s, append.nil s)

words-IsIn :
    (t before run s : String)
    → t ≡ before <> (run <> s)
    → All (λ (w : String). IsIn w t) (words run s)
unfolding words
words-IsIn t before run String.[] e =
    flush-All (λ (w : String). IsIn w t) run (before, String.[], e)
words-IsIn t before run (String.◌∷◌ c s) e = elim (Bool-cases (is_word_char (code c))) [
  | inl k ↦ rw k (
      words-IsIn t before (run <> String.◌∷◌ c String.[]) s
        (cc (e, append_assoc run (String.◌∷◌ c String.[]) s, one_char c s)))
  | inr k ↦ rw k (
      All-append (λ (w : String). IsIn w t) (flush run) (words "" s)
        (flush-All (λ (w : String). IsIn w t) run (before, String.◌∷◌ c s, e))
        (words-IsIn t (before <> (run <> String.◌∷◌ c String.[])) "" s (
          cc (
            e,
            append_assoc before (run <> String.◌∷◌ c String.[]) s,
            append_assoc run (String.◌∷◌ c String.[]) s,
            one_char c s,
            append.nil s,
          ))))
]

others-IsWordOf :
    (j : Json) (js : List Json) (ws : List String)
    → All (IsWordOf js) ws
    → All (IsWordOf (j ∷ js)) ws
others-IsWordOf j js [] h = tt
others-IsWordOf j js (w ∷ ws) (p, h) = (inr p, others-IsWordOf j js ws h)

firsts-IsWordOf :
    (j : Json) (s : String) (js : List Json) (ws : List String)
    → j ≡ text s
    → All (λ (w : String). IsIn w (lower s)) ws
    → All (IsWordOf (j ∷ js)) ws
firsts-IsWordOf j s js [] e h = tt
firsts-IsWordOf j s js (w ∷ ws) e (p, h) = (inl (s, e, p), firsts-IsWordOf j s js ws e h)

-- The words of one value, where one that is falsy has none.
value-IsWordOf :
    (j : Json) (js : List Json) (s : String)
    → (if is_truthy j then as_text j else ok "") ≡ ok s
    → All (IsWordOf (j ∷ js)) (words "" (lower s))
unfolding words lower is_long
value-IsWordOf j js s h = elim (Bool-cases (is_truthy j)) [
  | inl e ↦
      firsts-IsWordOf j s js (words "" (lower s)) (as_text-text j s (ground (arith, h, e)))
        (words-IsIn (lower s) "" "" (lower s) (cc (append.nil (lower s))))
  | inr e ↦ let same : "" ≡ s = ground (arith, h, e) in rw (← same) tt
]

keywords-IsWordOf : (js : List Json) (ws : List String) → keywords js ≡ ok ws → All (IsWordOf js) ws
unfolding keywords
keywords-IsWordOf [] ws h = let same : [] ≡ ws = cc in rw (← same) tt
keywords-IsWordOf (j ∷ js) ws h =
    let (s, e, h1) = >>=-Returns (if is_truthy j then as_text j else ok "") _ h in
    let (rest, r, h2) = >>=-Returns (keywords js) _ h1 in
    let same : words "" (lower s) ++ rest ≡ ws = cc in
    rw (← same) (
      All-append (IsWordOf (j ∷ js)) (words "" (lower s)) rest (value-IsWordOf j js s e)
        (others-IsWordOf j js rest (keywords-IsWordOf js rest r)))

-- The words of an advisory are those of its title and its component.
abbrev pub AdvisoryWords : Json → List String → Type 0
AdvisoryWords ca ws =
    (title : Json) × (component : Json) × (get ca "title" ≡ ok title)
    × (get ca "component" ≡ ok component)
    × All (IsWordOf (title ∷ component ∷ [])) ws

advisory_words-AdvisoryWords :
    (ca : Json) (ws : List String) → advisory_words ca ≡ ok ws → AdvisoryWords ca ws
unfolding advisory_words
advisory_words-AdvisoryWords ca ws h =
    let (title, e, h1) = >>=-Returns (get ca "title") _ h in
    let (component, f, h2) = >>=-Returns (get ca "component") _ h1 in
    (title, component, e, f, keywords-IsWordOf (title ∷ component ∷ []) ws h2)

-- The reference is made of an advisory that shares a word with the event.
abbrev pub IsMatch : List String → String → Json → Json → Type 0
IsMatch event_words status ref ca =
    (ws : List String) × AdvisoryWords ca ws
    × SharesWord event_words ws
    × (reference status ca ≡ ok ref)

-- One of the advisories is such a one.
abbrev pub HasSource : List String → String → List Json → Json → Type 0
HasSource event_words status [] ref = ⊥
HasSource event_words status (ca ∷ cas) ref =
    IsMatch event_words status ref ca ⊎ HasSource event_words status cas ref

module _ (event_words : List String) (status : String) (keyed : All IsKeyword event_words) where
  later :
      (ca : Json) (cas refs : List Json)
      → All (HasSource event_words status cas) refs
      → All (HasSource event_words status (ca ∷ cas)) refs
  later ca cas [] h = tt
  later ca cas (ref ∷ refs) h = (inr h.0, later ca cas refs h.1)

  matching-HasSource :
      (cas refs : List Json)
      → matching event_words status cas ≡ ok refs
      → All (HasSource event_words status cas) refs
  unfolding matching
  matching-HasSource [] refs h = let same : [] ≡ refs = cc in rw (← same) tt
  matching-HasSource (ca ∷ cas) refs h =
      let (ws, w, h1) = >>=-Returns (advisory_words ca) _ h in
      let (ref, r, h2) = >>=-Returns (reference status ca) _ h1 in
      let (rest, m, h3) = >>=-Returns (matching event_words status cas) _ h2 in
      let others = later ca cas rest (matching-HasSource cas rest m) in
      elim (Bool-cases (overlap event_words ws)) [
        | inl o ↦
            let same : ref ∷ rest ≡ refs = ground (arith, h3) in
            rw (← same) (
              inl (
                ws,
                advisory_words-AdvisoryWords ca ws w,
                overlap-SharesWord event_words ws keyed o,
                r,
              ),
              others,
            )
        | inr o ↦ let same : rest ≡ refs = ground (arith, h3) in rw (← same) others
      ]

-- Every advisory attached to an event is one of those given, and some word, of four characters at
-- least and no stop word, stands both in its title or component and in the event's title, description
-- or category, whatever the case of the letters.
pub relevant-HasSource :
    (e : CanonicalEvent) (cas : List Json) (status : String) (refs : List Json)
    → relevant e cas status ≡ ok refs
    → (event_words : List String) × All
        (IsWordOf (e.title ∷ e.description ∷ e.category ∷ []))
        event_words
      × All (HasSource event_words status cas) refs
unfolding relevant
relevant-HasSource e cas status refs h =
    let (event_words, w, m) =
      >>=-Returns (keywords (e.title ∷ e.description ∷ e.category ∷ [])) _ h in
    (
      event_words,
      keywords-IsWordOf _ event_words w,
      matching-HasSource event_words status (keywords-IsKeyword _ event_words w) cas refs m,
    )
