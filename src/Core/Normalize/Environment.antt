-- ===== src/Core/Normalize/Environment.antt =====
-- What `normalize` takes from outside its file: Python's library, the clock and the environment.
use hpe_com_event_integratio.Base.{ℕ, String, Option, List}
use hpe_com_event_integratio.Base.Text.{join}
use hpe_com_event_integratio.Python.{Json}

-- A `datetime`: microseconds since 1970 as its fields read in UTC, with or without a `tzinfo`.
pub data DateTime : Type 0 where
  naive : ℕ → DateTime
  aware : ℕ → DateTime

-- `repr` is `str()` of a list or dict, `sha1` is `hashlib.sha1(_.encode()).hexdigest()`, `from_iso` is
-- `datetime.fromisoformat` (`none` for its `ValueError`), `now` is `datetime.now(timezone.utc)`, and
-- `server_monitors` is the environment's SERVER_MONITORS, empty if unset.
pub record Platform : Type 0 where
  pub repr : Json → String
  pub sha1 : String → String
  pub from_iso : String → Option DateTime
  pub now : ℕ
  pub server_monitors : String

-- `_dedup(*parts)`, the parts as texts.
unfoldable pub dedup_hash : Platform → List String → String
dedup_hash p parts = p.sha1 (join "|" parts)
