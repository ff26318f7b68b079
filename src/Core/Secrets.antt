-- ===== src/Core/Secrets.antt =====
-- `get_secret` of com-event-core/com_event_core/secrets.py. The environment and the files are
-- functions: a name's value, and what reading a file gives.
use hpe_com_event_integratio.Base.{
  String, ◌<>◌, Bool, false, Option, none, some, truthy, if◌then◌else◌,
}
use hpe_com_event_integratio.Base.Text.{rstrip_char}
use hpe_com_event_integratio.Python.{Result, ok, raised, key_error, unicode_decode_error}

-- What `open` and `read` do: a text, an `OSError`, or bytes that are not UTF-8.
pub data FileRead : Type 0 where
  contents : String → FileRead
  os_error : FileRead
  not_utf8 : FileRead

pub record Host : Type 0 where
  pub env : String → Option String
  pub read : String → FileRead

-- Present and not empty.
abbrev pub is_set : Option String → Bool
is_set none = false
is_set (some s) = truthy s

abbrev pub text_of : Option String → String
text_of none = ""
text_of (some s) = s

abbrev pub from_file : FileRead → Result (Option String)
from_file (contents s) = ok (some (rstrip_char 10 s))
from_file os_error = raised key_error
from_file not_utf8 = raised unicode_decode_error

abbrev pub or_fallback : Option String → Bool → Result (Option String)
or_fallback (some d) required = ok (some d)
or_fallback none required = if required then raised key_error else ok none

abbrev pub from_env : Option String → Option String → Bool → Result (Option String)
from_env (some value) default required = ok (some value)
from_env none default required = or_fallback default required

unfoldable pub get_secret : Host → String → Option String → Bool → Result (Option String)
get_secret h name default required =
    if is_set (h.env (name <> "_FILE"))
    then from_file (h.read (text_of (h.env (name <> "_FILE"))))
    else from_env (h.env name) default required
