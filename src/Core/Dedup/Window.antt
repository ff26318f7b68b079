-- ===== src/Core/Dedup/Window.antt =====
-- How long a mark of the de-duplication store lasts.
use hpe_com_event_integratio.Base.{
  ℕ, ◌+◌, ◌-◌, ◌≤◌, ◌<◌, String, Bool, false, true, Option, none, some, [], ◌∷◌, ◌≡◌, refl, leb,
  arith, ◌==◌, if◌then◌else◌, eq_iff,
}
use hpe_com_event_integratio.Base.Dict.{
  lookup, insert, lookup-insert, UniqueKeys, insert-UniqueKeys,
}
use hpe_com_event_integratio.Core.Dedup.{Seen, purge, already_done, mark_done, is_some}

-- What is left of a mark after a purge.
abbrev pub survives : ℕ → Option ℕ → Bool
survives cutoff none = false
survives cutoff (some at) = leb cutoff at

-- A mark no older than `start` outlives a purge up to `start`.
pub survives-purge :
    (cutoff start : ℕ) (key : String) (seen : Seen)
    → cutoff ≤ start
    → survives start (lookup key seen) ≡ true
    → survives start (lookup key (purge cutoff seen)) ≡ true
unfolding lookup purge
survives-purge cutoff start key [] le h = h
survives-purge cutoff start key ((k, b) ∷ seen) le h =
    ground (arith, survives-purge cutoff start key seen, eq_iff k key)

pub lookup-purge_absent :
    (cutoff : ℕ) (key : String) (seen : Seen)
    → lookup key seen ≡ none
    → lookup key (purge cutoff seen) ≡ none
unfolding lookup purge
lookup-purge_absent cutoff key [] h = h
lookup-purge_absent cutoff key ((k, b) ∷ seen) h =
    ground (arith, lookup-purge_absent cutoff key seen, eq_iff k key)

pub lookup-purge :
    (cutoff : ℕ) (key : String) (seen : Seen)
    → UniqueKeys seen
    → is_some (lookup key (purge cutoff seen)) ≡ survives cutoff (lookup key seen)
unfolding lookup purge
lookup-purge cutoff key [] u = refl
lookup-purge cutoff key ((k, b) ∷ seen) (fresh, u) =
    ground
      (arith, lookup-purge cutoff key seen u, eq_iff k key, lookup-purge_absent cutoff key seen)

pub purge-UniqueKeys : (cutoff : ℕ) (seen : Seen) → UniqueKeys seen → UniqueKeys (purge cutoff seen)
unfolding purge lookup
purge-UniqueKeys cutoff [] u = tt
purge-UniqueKeys cutoff ((k, b) ∷ seen) (fresh, u) =
    ground (arith, purge-UniqueKeys cutoff seen u, lookup-purge_absent cutoff k seen)

-- With a positive `ttl`, a store whose keys are unique and a mark made at `at`: a look at `now` finds
-- a key marked exactly if it is the key just marked and `now` is at most `ttl` past `at`, or it is
-- another key whose own mark is at most `ttl` old.
pub already_done-mark_done :
    (ttl at now : ℕ) (key other : String) (seen : Seen)
    → 0 < ttl
    → UniqueKeys seen
    → (already_done ttl now other (mark_done ttl at key seen)).0
      ≡ (if key == other then leb now (at + ttl) else survives (now - ttl) (lookup other seen))
unfolding already_done mark_done
already_done-mark_done ttl at now key other seen pos u = ground (
  arith,
  lookup-purge (now - ttl) other (insert key at seen) (insert-UniqueKeys key at seen u),
  lookup-insert key other at seen,
  eq_iff key other,
)
