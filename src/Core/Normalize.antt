-- ===== src/Core/Normalize.antt =====
-- `normalize` of com-event-core/com_event_core/normalize.py; its parts are the children.
pub mod Environment
pub mod Severity
pub mod AssetId
pub mod Monitors
pub mod Conditions
pub mod Server
pub mod Alert
pub mod Generic
pub mod Lifecycle
pub mod Selection
pub mod Pairs
use hpe_com_event_integratio.Base.{String, List, [], ◌∷◌, if◌then◌else◌}
use hpe_com_event_integratio.Base.Text.{lower, ends_with}
use hpe_com_event_integratio.Python.{Json, text, Result, ok, ◌>>=◌, get_or, str}
use hpe_com_event_integratio.Core.Event.{CanonicalEvent}
use hpe_com_event_integratio.Core.Normalize.Environment.{Platform}
use hpe_com_event_integratio.Core.Normalize.Server.{normalize_server}
use hpe_com_event_integratio.Core.Normalize.Alert.{normalize_alert}
use hpe_com_event_integratio.Core.Normalize.Generic.{normalize_generic}

-- The dispatch on the text of the payload's `type`, in lower case.
unfoldable pub dispatch : Platform → String → Json → Result (List CanonicalEvent)
dispatch p ptype payload =
    if ends_with ptype "/server"
    then normalize_server p payload
    else if ends_with ptype "/alert"
    then (do e ← normalize_alert p payload; ok (e ∷ []))
    else (do e ← normalize_generic p payload; ok (e ∷ []))

unfoldable pub normalize : Platform → Json → Result (List CanonicalEvent)
unfolding dispatch
normalize p payload = do
  ptype ← get_or payload "type" (text "")
  dispatch p (lower (str p.repr ptype)) payload
