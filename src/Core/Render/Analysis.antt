-- ===== src/Core/Render/Analysis.antt =====
-- When an analysis is rendered.
use hpe_com_event_integratio.Base.{◌∷◌, not, ◌≡◌, arith, if◌then◌else◌}
use hpe_com_event_integratio.Base.Text.{join}
use hpe_com_event_integratio.Core.Event.{CanonicalEvent}
use hpe_com_event_integratio.Core.Render.{
  Formats, heading, is_empty, has_analysis, analysis_lines, analysis_text,
}

-- The heading is never rendered alone: an event has lines to render exactly if it has a summary, a
-- root cause or actions, and its text is then the heading and those lines, else empty.
analysis_text-headed :
    (f : Formats) (e : CanonicalEvent)
    → (is_empty (analysis_lines f e) ≡ not (has_analysis e))
      × (analysis_text f e
          ≡ (if has_analysis e then join "\n" (heading ∷ analysis_lines f e) else ""))
unfolding has_analysis analysis_lines analysis_text
analysis_text-headed f e = (ground arith, ground arith)
