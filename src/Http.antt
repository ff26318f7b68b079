-- ===== src/Http.antt =====
-- Requests and responses, as the two web applications see them (FastAPI's `Request`, `Response` and
-- `HTTPException`). Header names are in lower case, as Starlette compares them.
use hpe_com_event_integratio.Base.{
  ℕ, String, Bool, Option, none, List, ◌&&◌, ◌==◌, truthy, if◌then◌else◌,
}
use hpe_com_event_integratio.Base.Text.{
  is_ascii, all_chars, is_decimal, is_latin_digit, parse_decimal,
}
use hpe_com_event_integratio.Python.{Result, ok, raised, type_error, value_error}

pub record Request : Type 0 where
  pub is_post : Bool
  pub headers : List (String × String)
  pub body : List ℕ

pub record Response : Type 0 where
  pub status : ℕ
  pub event_id : Option String
  pub verification : Option String

-- A response with a status alone, as an `HTTPException` becomes one.
abbrev pub status_only : ℕ → Response
status_only n = record { status = n; event_id = none; verification = none }

-- What the checks of a webhook decide: an answer, or the body to work on. An exception that nothing
-- catches becomes status 500.
pub data Gate : Type 0 where
  answered : Response → Gate
  admitted : List ℕ → Gate

abbrev pub crashed : Gate
crashed = answered (status_only 500)

-- `hmac.compare_digest` of two texts raises `TypeError` unless both are ASCII.
unfoldable pub compare_digest : String → String → Result Bool
compare_digest a b = if is_ascii a && is_ascii b then ok (a == b) else raised type_error

-- `s.isdigit()`, for a header's text.
unfoldable pub is_digit : String → Bool
is_digit s = truthy s && all_chars is_latin_digit s

-- `int(s)`, for a text that `isdigit` accepts.
unfoldable pub to_int : String → Result ℕ
to_int s = if all_chars is_decimal s then ok (parse_decimal s) else raised value_error
