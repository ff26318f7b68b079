-- ===== src/Core/Dedup.antt =====
-- com-event-core/com_event_core/dedup.py. The table `seen` is an association list, its times are
-- seconds of `time.time()`. A `ttl` of 0 stands for every value that is not positive.
pub mod Window
use hpe_com_event_integratio.Base.{
  ℕ, ◌-◌, String, Bool, false, true, Option, none, some, List, [], ◌∷◌, ltb, leb, if◌then◌else◌,
}
use hpe_com_event_integratio.Base.Dict.{lookup, insert}

abbrev pub Seen : Type 0
Seen = List (String × ℕ)

-- `DELETE FROM seen WHERE seen_at < cutoff`
unfoldable pub purge : ℕ → Seen → Seen
purge cutoff [] = []
purge cutoff ((k, at) ∷ seen) =
    let rest = purge cutoff seen in if ltb at cutoff then rest else (k, at) ∷ rest

abbrev pub is_some : Option ℕ → Bool
is_some none = false
is_some (some _) = true

-- The answer, and the table after the purge.
unfoldable pub already_done : ℕ → ℕ → String → Seen → Bool × Seen
unfolding purge lookup
already_done ttl now key seen =
    if leb ttl 0
    then (false, seen)
    else let kept = purge (now - ttl) seen in (is_some (lookup key kept), kept)

unfoldable pub mark_done : ℕ → ℕ → String → Seen → Seen
unfolding insert
mark_done ttl now key seen = if leb ttl 0 then seen else insert key now seen
