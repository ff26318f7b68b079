-- ===== src/Base/Dict.antt =====
-- Association lists with text keys, in insertion order: Python's dicts and keyed SQL tables.
use hpe_com_event_integratio.Base.Tests.{◌==◌, if◌then◌else◌}
use Prim.Native.String.{String}
use mathlib.Core.Path.{◌≡◌, refl}
use mathlib.Core.List.{List, [], ◌∷◌}
use mathlib.Core.Option.{Option, none, some}
use native.Mathlib.Omega.{arith}
use text.Mathlib.TextEquality.{eq_iff}

module _ {ℓ} {V : Type ℓ} where
  unfoldable pub lookup : String → List (String × V) → Option V
  lookup k [] = none
  lookup k ((j, v) ∷ d) = if j == k then some v else lookup k d

  -- `d[k] = v`
  unfoldable pub insert : String → V → List (String × V) → List (String × V)
  insert k v [] = (k, v) ∷ []
  insert k v ((j, w) ∷ d) = if j == k then (k, v) ∷ d else (j, w) ∷ insert k v d

  -- No key stands twice.
  abbrev pub UniqueKeys : List (String × V) → Type ℓ
  UniqueKeys [] = Unit
  UniqueKeys ((k, _) ∷ d) = (lookup k d ≡ none) × UniqueKeys d

  pub lookup-insert :
      (k j : String) (v : V) (d : List (String × V))
      → lookup j (insert k v d) ≡ (if k == j then some v else lookup j d)
  unfolding lookup insert
  lookup-insert k j v [] = refl
  lookup-insert k j v ((i, w) ∷ d) =
      ground (arith, eq_iff k j, eq_iff i k, eq_iff i j, lookup-insert k j v d)

  pub insert-UniqueKeys :
      (k : String) (v : V) (d : List (String × V)) → UniqueKeys d → UniqueKeys (insert k v d)
  unfolding insert lookup
  insert-UniqueKeys k v [] u = (refl, tt)
  insert-UniqueKeys k v ((j, w) ∷ d) (fresh, u) =
      ground (arith, insert-UniqueKeys k v d u, lookup-insert k j v d, eq_iff j k, eq_iff k j)
