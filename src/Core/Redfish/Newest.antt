-- ===== src/Core/Redfish/Newest.antt =====
-- The order and the number of the log entries.
use hpe_com_event_integratio.Base.{
  ℕ, zero, suc, String, true, false, List, [], ◌∷◌, ◌≡◌, refl, ap, inl, inr, arith, length,
  Bool-cases, min, ◌++◌, not, contains, Bool, if◌then◌else◌,
}
use mathlib.Core.List.{Perm}
use mathlib.Core.List.Perm
use package.text.Mathlib.Text.{is_le}
use Prim.Native.String.compare
use Prim.Native.String.{compare}
use hpe_com_event_integratio.Python.{Json, ok, get, str, ◌or◌, text}
use hpe_com_event_integratio.Core.Normalize.Lifecycle.{>>=-Returns}
use hpe_com_event_integratio.Core.Redfish.Sensors.{Numbers, state_text, is_healthy}
use hpe_com_event_integratio.Core.Redfish.Log.{
  Dated, text_le, interesting, insert_newest, newest_first, first_few, short_entries, LogRead,
  read_members,
}

-- The text of each entry's `Created` is at least that of the next, by code points.
abbrev pub IsNewestFirst : List Dated → Type 0
IsNewestFirst [] = Unit
IsNewestFirst (d ∷ []) = Unit
IsNewestFirst (d ∷ e ∷ es) = (is_le (compare e.created d.created) ≡ true) × IsNewestFirst (e ∷ es)

-- One of two texts comes first.
text_le_total : (s t : String) → text_le s t ≡ false → text_le t s ≡ true
text_le_total String.[] String.[] h = refl
text_le_total String.[] (String.◌∷◌ d t) h = absurd (ground (arith, compare.nil-cons d t, h))
text_le_total (String.◌∷◌ c s) String.[] h = rw (compare.nil-cons c s) refl
text_le_total (String.◌∷◌ c s) (String.◌∷◌ d t) h =
    ground (arith, compare.cons-cons c d s t, compare.cons-cons d c t s, text_le_total s t)

insert_newest-IsNewestFirst :
    (d : Dated) (ds : List Dated) → IsNewestFirst ds → IsNewestFirst (insert_newest d ds)
unfolding insert_newest
insert_newest-IsNewestFirst d [] h = tt
insert_newest-IsNewestFirst d (e ∷ []) h = ground (arith, text_le_total e.created d.created)
insert_newest-IsNewestFirst d (e ∷ f ∷ es) h =
    ground (arith, h, text_le_total e.created d.created, insert_newest-IsNewestFirst d (f ∷ es))

newest_first-IsNewestFirst : (ds : List Dated) → IsNewestFirst (newest_first ds)
unfolding newest_first
newest_first-IsNewestFirst [] = tt
newest_first-IsNewestFirst (d ∷ ds) =
    insert_newest-IsNewestFirst d (newest_first ds) (newest_first-IsNewestFirst ds)

-- The sort moves the entries about and loses none.
insert_newest-Perm : (d : Dated) (ds : List Dated) → Perm (insert_newest d ds) (d ∷ ds)
unfolding insert_newest
insert_newest-Perm d [] = Perm.refl _
insert_newest-Perm d (e ∷ es) = elim (Bool-cases (text_le e.created d.created)) [
  | inl k ↦ rw k (Perm.refl _)
  | inr k ↦ rw k (Perm.trans (Perm.cons e (insert_newest-Perm d es)) (Perm.swap _ _ _))
]

newest_first-Perm : (ds : List Dated) → Perm (newest_first ds) ds
unfolding newest_first
newest_first-Perm [] = Perm.refl _
newest_first-Perm (d ∷ ds) =
    Perm.trans (insert_newest-Perm d (newest_first ds)) (Perm.cons d (newest_first-Perm ds))

-- A list is what is kept of it and what is cut off, and nothing is cut off before the limit.
abbrev pub IsCut : ℕ → List Dated → List Dated → Type 0
IsCut n kept ds = (length kept ≡ min n (length ds)) × ((older : List Dated) × (ds ≡ kept ++ older))

first_few-IsCut : (n : ℕ) (ds : List Dated) → IsCut n (first_few n ds) ds
unfolding first_few
first_few-IsCut zero ds = (omega arith, (ds, refl))
first_few-IsCut (suc n) [] = (omega arith, ([], refl))
first_few-IsCut (suc n) (d ∷ ds) =
    let (count, (older, e)) = first_few-IsCut n ds in
    (omega (arith, count), (older, ap (λ xs. d ∷ xs) e))

module _ (n : Numbers) where
  -- A severity that is a problem: stripped and in lower case it is none of these words.
  abbrev is_problem : Json → Bool
  is_problem severity =
      not (contains ("ok" ∷ "enabled" ∷ "absent" ∷ "" ∷ "none" ∷ []) (state_text n severity))

  -- The second list holds the entries of the first one whose severity is a problem, in their order,
  -- each with the text of its own `Created`, or none.
  abbrev pub AreProblemsOf : List Json → List Dated → Type 0
  AreProblemsOf [] ds = ds ≡ []
  AreProblemsOf (m ∷ ms) ds =
      (severity : Json) × (created : Json) × (rest : List Dated) × (get m "Severity" ≡ ok severity)
      × (get m "Created" ≡ ok created)
      × AreProblemsOf ms rest
      × (ds ≡ (
          if is_problem severity
          then record { created = str n.repr (created or text ""); entry = m } ∷ rest
          else rest))

  interesting-AreProblemsOf :
      (ms : List Json) (ds : List Dated) → interesting n ms ≡ ok ds → AreProblemsOf ms ds
  unfolding interesting
  interesting-AreProblemsOf [] ds h = cc
  interesting-AreProblemsOf (m ∷ ms) ds h =
      let (severity, s, h1) = >>=-Returns (get m "Severity") _ h in
      let (created, c, h2) = >>=-Returns (get m "Created") _ h1 in
      let (rest, r, h3) = >>=-Returns (interesting n ms) _ h2 in
      (
        severity,
        created,
        rest,
        s,
        c,
        interesting-AreProblemsOf ms rest r,
        elim (Bool-cases (is_healthy (state_text n severity))) [
          | inl k ↦ ground (arith, h3, k)
          | inr k ↦ ground (arith, h3, k)
        ],
      )

  -- The log that goes into the evidence is cut from the entries whose severity is a problem, put in
  -- the order of their `Created`, the last first: it has `limit` of them, or all if they are fewer, and
  -- the total counts every entry of the log.
  pub read_members-newest :
      (limit : ℕ) (members : List Json) (l : LogRead)
      → read_members n limit members ≡ ok l
      → (l.total ≡ length members)
        × ((problems : List Dated) × (sorted : List Dated) × (kept : List Dated) × AreProblemsOf
              members problems
            × Perm sorted problems
            × IsNewestFirst sorted
            × IsCut limit kept sorted
            × (short_entries kept ≡ ok l.entries))
  unfolding read_members
  read_members-newest limit members l h =
      let (problems, f, h1) = >>=-Returns (interesting n members) _ h in
      let sorted : List Dated = newest_first problems in
      let (entries, e, h2) = >>=-Returns (short_entries (first_few limit sorted)) _ h1 in
      let same : record { entries = entries; total = length members } ≡ l = cc in
      rw (← same) (
        refl,
        (
          problems,
          sorted,
          first_few limit sorted,
          interesting-AreProblemsOf members problems f,
          newest_first-Perm problems,
          newest_first-IsNewestFirst problems,
          first_few-IsCut limit sorted,
          e,
        ),
      )
