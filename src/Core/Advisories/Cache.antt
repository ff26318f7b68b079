-- ===== src/Core/Advisories/Cache.antt =====
-- What the cache holds.
use hpe_com_event_integratio.Base.{
  ℕ, ◌+◌, ◌≤◌, ◌<◌, String, Bool, true, false, List, [], ◌∷◌, none, some, ◌≡◌, inl, inr, refl,
  arith, eq_iff, ==_refl, ◌==◌, length, leb, Bool-cases, if◌then◌else◌,
}
use hpe_com_event_integratio.Base.Dict.{insert, lookup-insert}
use hpe_com_event_integratio.Core.Advisories.{older, evict, pop, oldest, cache_get, cache_put}

module _ {ℓ} {V : Type ℓ} where
  length-insert :
      (k : String) (v : ℕ × V) (d : List (String × (ℕ × V))) → length (insert k v d) ≤ length d + 1
  unfolding insert
  length-insert k v [] = omega arith
  length-insert k v ((j, w) ∷ d) = ground (arith, length-insert k v d)

  -- Whether a key is there.
  abbrev holds : String → List (String × (ℕ × V)) → Bool
  holds k [] = false
  holds k ((j, w) ∷ d) = if j == k then true else holds k d

  length-pop :
      (k : String) (d : List (String × (ℕ × V)))
      → holds k d ≡ true
      → length (pop k d) + 1 ≡ length d
  unfolding pop
  length-pop k [] h = cc
  length-pop k ((j, (at, v)) ∷ d) h = ground (arith, length-pop k d)

  oldest-holds :
      (d : List (String × (ℕ × V))) (k : String) (at : ℕ)
      → oldest d ≡ some (k, at)
      → holds k d ≡ true
  unfolding oldest
  oldest-holds [] k at h = cc
  oldest-holds ((j, (at', v)) ∷ d) k at h = ground (arith, oldest-holds d k at, eq_iff j k)

  evicted : ℕ → List (String × (ℕ × V)) → List (String × (ℕ × V))
  evicted max_entries d = if leb max_entries (length d) then evict (oldest d) d else d

  length-evicted :
      (max_entries : ℕ) (d : List (String × (ℕ × V)))
      → 0 < max_entries
      → length d ≤ max_entries
      → length (evicted max_entries d) + 1 ≤ max_entries
  unfolding evicted oldest
  length-evicted max_entries [] room h = ground arith
  length-evicted max_entries ((j, (at, w)) ∷ d) room h =
      let all : List (String × (ℕ × V)) = (j, (at, w)) ∷ d in
      let (first, since) = older (j, at) (oldest d) in
      ground (arith, length-pop first all (oldest-holds all first since refl))

  -- With room for at least one entry, a cache within its bound is within it after a `put` as well.
  pub cache_put-bounded :
      (ttl max_entries now : ℕ) (k : String) (v : V) (d : List (String × (ℕ × V)))
      → 0 < max_entries
      → length d ≤ max_entries
      → length (cache_put ttl max_entries now k v d) ≤ max_entries
  unfolding cache_put evicted
  cache_put-bounded ttl max_entries now k v d room h = elim (Bool-cases (leb ttl 0)) [
    | inl e ↦ rw e h
    | inr e ↦ rw e (
        omega (
          arith,
          length-insert k (now, v) (evicted max_entries d),
          length-evicted max_entries d room h,
        ))
  ]

  -- With a positive `ttl`, a key that was put at `at` is found at `now` with its value exactly if `now`
  -- is at most `ttl` past `at`, whatever the cache held and evicted.
  pub cache_get-cache_put :
      (ttl max_entries at now : ℕ) (k : String) (v : V) (d : List (String × (ℕ × V)))
      → 0 < ttl
      → (cache_get ttl now k (cache_put ttl max_entries at k v d)).0
        ≡ (if leb now (at + ttl) then some v else none)
  unfolding cache_get cache_put
  cache_get-cache_put ttl max_entries at now k v d h = ground (
    arith,
    ==_refl k,
    lookup-insert k k (at, v) d,
    lookup-insert k k (at, v) (evict (oldest d) d),
  )
