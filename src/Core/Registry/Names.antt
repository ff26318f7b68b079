-- ===== src/Core/Registry/Names.antt =====
-- What a selector selects.
use hpe_com_event_integratio.Base.{
  String, Bool, false, List, [], ◌∷◌, ◌++◌, ◌||◌, ◌&&◌, not, ◌≡◌, refl, arith, eq_iff, ◌==◌,
  contains, truthy, Bool-cases, inl, inr,
}
use hpe_com_event_integratio.Base.Text.{strip, lower, split}
use hpe_com_event_integratio.Core.Deliver.Once.{NoRepeats}
use hpe_com_event_integratio.Core.Registry.{add_parts, ordered_names}

-- Some part, stripped and in lower case, is the name.
unfoldable pub names_part : List String → String → Bool
names_part [] n = false
names_part (part ∷ parts) n = lower (strip part) == n || names_part parts n

pub contains-append :
    (xs : List String) (y n : String) → contains (xs ++ y ∷ []) n ≡ (contains xs n || y == n)
unfolding contains
contains-append [] y n = ground arith
contains-append (x ∷ xs) y n = ground (arith, contains-append xs y n)

NoRepeats-append :
    (xs : List String) (y : String)
    → NoRepeats xs
    → contains xs y ≡ false
    → NoRepeats (xs ++ y ∷ [])
unfolding contains
NoRepeats-append [] y u new = (refl, tt)
NoRepeats-append (x ∷ xs) y (fresh, u) new =
    ground (arith, NoRepeats-append xs y u, contains-append xs y x, eq_iff x y, eq_iff y x)

add_parts-contains :
    (parts ordered : List String) (n : String)
    → contains (add_parts parts ordered) n
      ≡ (contains ordered n || (truthy n && names_part parts n))
unfolding add_parts names_part
add_parts-contains [] ordered n = ground arith
add_parts-contains (part ∷ parts) ordered n =
    let name = lower (strip part) in
    ground (
      arith,
      add_parts-contains parts ordered n,
      add_parts-contains parts (ordered ++ name ∷ []) n,
      contains-append ordered name n,
      eq_iff name n,
      eq_iff name "",
      eq_iff n "",
    )

add_parts-NoRepeats :
    (parts ordered : List String) → NoRepeats ordered → NoRepeats (add_parts parts ordered)
unfolding add_parts
add_parts-NoRepeats [] ordered u = u
add_parts-NoRepeats (part ∷ parts) ordered u =
    let name = lower (strip part) in
    elim (Bool-cases (not (truthy name) || contains ordered name)) [
      | inl e ↦ rw e (add_parts-NoRepeats parts ordered u)
      | inr e ↦ rw e (
          add_parts-NoRepeats parts (ordered ++ name ∷ [])
            (NoRepeats-append ordered name u (ground arith)))
    ]

-- A selector such as TARGETS yields each name once, and yields exactly the names that are not empty
-- and that one of its comma-separated parts is, up to blanks around it and to case.
pub ordered_names-exact :
    (raw : String)
    → NoRepeats (ordered_names raw)
      × ((n : String)
          → contains (ordered_names raw) n ≡ (truthy n && names_part (split b',' raw) n))
unfolding ordered_names contains
ordered_names-exact raw =
    (add_parts-NoRepeats (split b',' raw) [] tt, λ n. add_parts-contains (split b',' raw) [] n)
