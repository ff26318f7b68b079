-- ===== src/Python/Documents.antt =====
-- JSON documents as Python holds them after `json.loads`, and the calls that the program makes on
-- such a value. A number is kept as the pair of its truth value and its `str()`.
use hpe_com_event_integratio.Base.{◌≡◌, String, Bool, true, false, ◌==◌, if◌then◌else◌}
use mathlib.Core.List.{List, [], ◌∷◌}
use hpe_com_event_integratio.Base.Text.{truthy}
use hpe_com_event_integratio.Python.Exceptions.{
  Result, ok, raised, attribute_error, type_error, ◌>>=◌,
}

mutual
  pub data Json : Type 0 where
    null : Json
    bool : Bool → Json
    number : Bool → String → Json
    text : String → Json
    array : Items → Json
    object : Fields → Json

  pub data Items : Type 0 where
    nil : Items
    cons : Json → Items → Items

  pub data Fields : Type 0 where
    end : Fields
    field : String → Json → Fields → Fields

-- `bool(j)`
abbrev pub is_truthy : Json → Bool
is_truthy null = false
is_truthy (bool b) = b
is_truthy (number nonzero _) = nonzero
is_truthy (text s) = truthy s
is_truthy (array nil) = false
is_truthy (array (cons _ _)) = true
is_truthy (object end) = false
is_truthy (object (field _ _ _)) = true

-- `a or b`
infixr 20 ◌or◌
abbrev pub ◌or◌ : Json → Json → Json
a or b = if is_truthy a then a else b

unfoldable pub find : String → Fields → Json → Json
find k end default = default
find k (field j v fs) default = if j == k then v else find k fs default

-- `d.get(k, default)`; anything but a dict has no `get`.
unfoldable pub get_or : Json → String → Json → Result Json
unfolding find
get_or (object fs) k default = ok (find k fs default)
get_or _ k default = raised attribute_error

-- `d.get(k)`
unfoldable pub get : Json → String → Result Json
unfolding get_or
get d k = get_or d k null

-- `d.get(k, {}) or {}`
unfoldable pub get_dict : Json → String → Result Json
unfolding get_or
get_dict d k = get_or d k (object end) >>= λ v. ok (v or object end)

-- `s.upper()` and such calls want a text.
unfoldable pub as_text : Json → Result String
as_text (text s) = ok s
as_text _ = raised attribute_error

pub as_text-text : (j : Json) (s : String) → as_text j ≡ ok s → j ≡ text s
unfolding as_text
as_text-text (text t) s h = cc
as_text-text _ s h = cc

characters : String → List Json
characters String.[] = []
characters (String.◌∷◌ c s) = text (String.◌∷◌ c "") ∷ characters s

abbrev pub list_of : Items → List Json
list_of nil = []
list_of (cons j js) = j ∷ list_of js

keys : Fields → List Json
keys end = []
keys (field k v fs) = text k ∷ keys fs

-- What `for x in j` goes over.
unfoldable pub elements : Json → Result (List Json)
unfolding characters keys
elements (array js) = ok (list_of js)
elements (text s) = ok (characters s)
elements (object fs) = ok (keys fs)
elements _ = raised type_error

-- The elements of `j or []`.
unfoldable pub elements_or_nil : Json → Result (List Json)
unfolding elements
elements_or_nil j = if is_truthy j then elements j else ok []

-- `j == s`
abbrev pub equals_text : Json → String → Bool
equals_text (text s) t = s == t
equals_text _ t = false

-- `str(j)`. The text of a list or of a dict is the parameter `repr`.
unfoldable pub str : (Json → String) → Json → String
str repr null = "None"
str repr (bool true) = "True"
str repr (bool false) = "False"
str repr (number _ s) = s
str repr (text s) = s
str repr j = repr j
