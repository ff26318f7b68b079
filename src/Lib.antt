-- ===== src/Lib.antt =====
-- A verification library for the HPE Compute Ops Management (COM) event integrations.
--
-- The program takes webhook calls of COM and brings each event to one or more targets (Jira, Slack,
-- ServiceNow and so on). It has two forms. In the first, com-event-bridge is one process: an HTTP
-- handler checks a request and writes its body to a SQLite spool, and a worker thread claims the rows
-- that are due, normalises, enriches and delivers them, and deletes or reschedules each. In the
-- second, com-event-relay/relay is the HTTP handler alone and puts the body on a cloud queue, and
-- com-event-relay/shim takes the messages off it, handles them as the worker does and acknowledges
-- them. Both share com-event-core: the mapping of payloads to events, the de-duplication store, the
-- delivery to all targets, the registries of adapters and enrichers, and the look-up of secrets.
--
-- Core (com-event-core/com_event_core):
--   Core.Event          normalize.py, `CanonicalEvent` and its constants
--   Core.Normalize      normalize.py, one child for each group of functions: Severity, AssetId,
--                       Monitors, Conditions, Server, Alert, Generic
--   Core.Dedup          dedup.py, `DedupStore`: `already_done`, `mark_done`
--   Core.Deliver        deliver.py: `deliver`, `deliver_events`
--   Core.Registry       adapters/__init__.py: `get_adapters`
--   Core.Adapters       adapters/*.py: the document that an adapter sends for an event, for obm,
--                       opsramp and pagerduty (Alerts), servicenow, halo and bmc_helix (Incidents),
--                       dynatrace and datadog (Monitoring), splunk, elastic, sentinel, grafana and
--                       webhook (Records), jira (Jira), slack, teams, mattermost and github (Chat);
--                       for jira (Jira.Exchange) and github (Chat.GitHubExchange) the requests too
--   Core.Render         enrich/render.py: `analysis_text`, `advisory_text`
--   Core.Com            com_client.py: the token cache, `ComClient` and its methods
--   Core.Compliance     enrich/compliance.py: `find_group_for_device`, `get_device_compliance`
--   Core.Advisories     enrich/hpe_advisories.py: `wants`, `_TtlCache`, `_keywords`, `_relevant`;
--                       Lookup and Bundle the rest of the enricher. enrich/advisories.py: Patterns
--                       (the regular expressions), Page (`_AdvisorySectionParser`), Source
--   Core.Redfish        enrich/redfish.py: `RedfishClient`, Sensors, Log, Members, Bundle
--   Core.IloAi          enrich/ilo_ai.py: Budget, Coerce, Fields, Wants, Analyze
--   Core.Enrich         enrich/__init__.py: `get_enrichers`, `enrich_events`
--   Core.Secrets        secrets.py: `get_secret`
-- Bridge (com-event-bridge/bridge):
--   Bridge.Spool        core/spool.py, `SpoolStore`: one function for each method
--   Bridge.Worker       core/spool.py, `SpoolWorker.run`: one round of its loop
--   Bridge.App          app.py: `webhook`, `_accept_to_spool`, `_forward_sync`, `readiness`
--   Bridge.Startup      app.py: the checks that are made when the module is loaded
-- Relay (com-event-relay):
--   Relay.App           relay/app.py: `webhook`, `readiness`
--   Relay.Backends      relay/core/queue/base.py and shim/core/queue/base.py: the choice of the queue
--   Relay.Queues        core/queue/sqs.py and servicebus.py, of the relay and of the shim
--   Relay.Shim          shim/worker.py: `main`, message by message
-- Base holds lists, texts and association lists, Python the exceptions and JSON documents, Http the
-- requests and the checks that both web applications make with the standard library. The other
-- modules state and prove properties; Tests holds runs on concrete inputs.
--
-- State is passed explicitly. An operation that raises returns a `Result`. The clock is part of the
-- state, in seconds, and every call of an adapter or an enricher may take any time. Every loop of
-- the modelled code goes over a list, with these exceptions: the endless loop of the worker is one
-- round of it, that of a queue's `receive` goes over the polls so far, and the loop over the pages of
-- groups in compliance.py runs on `max_groups` + 1 units of fuel, one for each page. That is enough
-- since a page that is not the last adds to the number of groups seen.
--
-- Parameters, for code that is not in the repository: `json.loads` of a decoded body; `str` of a list
-- or dict, SHA-1, `datetime.fromisoformat` and the time of day (`Platform`); the formats of a number
-- (`Formats`); the answers of adapters and enrichers; the HTTP library, whose answer to a request may
-- depend on all the requests before (`Transport` for COM, `Ilo` for an iLO, `Web` for the advisory
-- pages with their URLs and the events of `HTMLParser`); `float`, the order of numbers and their
-- texts (`Floats`, `Numbers`); UTF-8 (`Utf8`); the SDKs of the cloud queues; the environment and the
-- files (`Host`). A row of the spool or of the de-duplication table is a record, and SQLite itself is
-- taken to do what its statements say: its faults are not modelled. A time to live of 0 stands for
-- every one that is not positive. A text has no lone surrogate, so that
-- it can always be encoded. The case of a letter is changed where
-- the result is ASCII; other letters are left as they are.
--
-- Not modelled: the HTTP exchanges of the adapters other than jira and github, with the token caches
-- of opsramp, halo and bmc_helix and the loop by which servicenow resolves its incidents; the constructors of the adapters and of the analyzer's enricher,
-- which read the environment; the faults and the closing of SQLite; the start-up of the relay and of
-- the shim; logging, examples and documentation, which have no logic of their own.
pub mod Base
pub mod Python
pub mod Core
pub mod Http
pub mod Bridge
pub mod Relay
pub mod Tests
