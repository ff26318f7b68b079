-- ===== src/Core/Advisories/Sections.antt =====
-- What the parser of an advisory page keeps true.
use hpe_com_event_integratio.Base.{
  ◌-◌, String, Bool, true, false, List, [], ◌∷◌, ◌++◌, Option, none, some, not, ◌&&◌, ◌≡◌, inl, inr,
  refl, arith, All, truthy, Bool-cases, nat_eq,
}
use hpe_com_event_integratio.Core.Advisories.Page.{
  Section, open_advisories, resolved_advisories, Event, start_tag, end_tag, data_text, Entry,
  Parser, new_parser, handle_starttag, handle_endtag, handle_data, handle, feed, close_entry,
  close_heading, has_section, entry_of,
}
use hpe_com_event_integratio.Base.Text.{strip, join}
use hpe_com_event_integratio.Core.Advisories.Patterns.{
  squeeze, is_open_heading, is_resolved_heading,
}

abbrev pub saw : Bool → Bool → Section → Bool
saw opened resolved open_advisories = opened
saw opened resolved resolved_advisories = resolved

abbrev pub IsListed : Bool → Bool → Entry → Type 0
IsListed a b e = (truthy e.line ≡ true) × (saw a b e.section ≡ true)

abbrev pub IsSeen : Bool → Bool → Option Section → Type 0
IsSeen a b none = Unit
IsSeen a b (some s) = saw a b s ≡ true

-- An entry has a text and stands under a heading that was seen, and so does the current section; no
-- entry is open outside the sections.
abbrev pub IsSound : Parser → Type 0
IsSound p =
    IsSeen p.saw_open_heading p.saw_resolved_heading p.section
    × (All (IsListed p.saw_open_heading p.saw_resolved_heading) p.entries
        × (has_section p.section ≡ false → p.entry_depth ≡ 0))

handle_starttag-IsSound :
    (tag : String) (attrs : List (String × Option String)) (p : Parser)
    → IsSound p
    → IsSound (handle_starttag tag attrs p)
unfolding handle_starttag
handle_starttag-IsSound tag attrs p (seen, (listed, outside)) = ground arith

-- What was seen stays seen.
saw-more :
    (a b a' b' : Bool) (s : Section)
    → (a ≡ true → a' ≡ true)
    → (b ≡ true → b' ≡ true)
    → saw a b s ≡ true
    → saw a' b' s ≡ true
saw-more a b a' b' open_advisories f g h = f h
saw-more a b a' b' resolved_advisories f g h = g h

IsListed-more :
    (a b a' b' : Bool) (es : List Entry)
    → (a ≡ true → a' ≡ true)
    → (b ≡ true → b' ≡ true)
    → All (IsListed a b) es
    → All (IsListed a' b') es
IsListed-more a b a' b' [] f g h = tt
IsListed-more a b a' b' (e ∷ es) f g ((line, s), h) =
    ((line, saw-more a b a' b' e.section f g s), IsListed-more a b a' b' es f g h)

close_heading-IsSound :
    (heading : String) (p : Parser) → IsSound p → IsSound (close_heading heading p)
unfolding close_heading
close_heading-IsSound heading p (seen, (listed, outside)) =
    elim (Bool-cases (is_open_heading heading)) [
      | inl e ↦
          let more =
            IsListed-more p.saw_open_heading p.saw_resolved_heading true p.saw_resolved_heading
              p.entries (λ _. refl) (λ h. h) listed in
          rw e (refl, (more, λ no. absurd (ground arith)))
      | inr e ↦ elim (Bool-cases (is_resolved_heading heading)) [
        | inl e' ↦
            let more =
              IsListed-more p.saw_open_heading p.saw_resolved_heading p.saw_open_heading true
                p.entries (λ h. h) (λ _. refl) listed in
            rw (e, e') (refl, (more, λ no. absurd (ground arith)))
        | inr e' ↦ rw (e, e') (seen, (listed, outside))
      ]
    ]

All-append {ℓ} :
    {A : Type ℓ} (P : A → Type 0) (xs ys : List A) → All P xs → All P ys → All P (xs ++ ys)
All-append P [] ys h k = k
All-append P (x ∷ xs) ys (p, h) k = (p, All-append P xs ys h k)

entry_of-IsListed :
    (a b : Bool) (s : Option Section) (line : String) (href : Option String) (header : Bool)
    → IsSeen a b s
    → All (IsListed a b) (entry_of s line href header)
entry_of-IsListed a b none line href header seen = tt
entry_of-IsListed a b (some s) line href header seen =
    elim (Bool-cases (truthy line && not header)) [
      | inl e ↦ rw e ((ground (arith, e), seen), tt)
      | inr e ↦ rw e tt
    ]

handle_data-IsSound : (d : String) (p : Parser) → IsSound p → IsSound (handle_data d p)
unfolding handle_data
handle_data-IsSound d p (seen, (listed, outside)) = ground arith

close_entry-IsSound : (p : Parser) → IsSound p → IsSound (close_entry p)
unfolding close_entry
close_entry-IsSound p (seen, (listed, outside)) = elim (Bool-cases (nat_eq (p.entry_depth - 1) 0)) [
  | inl e ↦
      let more =
        All-append (IsListed p.saw_open_heading p.saw_resolved_heading) p.entries _ listed (
          entry_of-IsListed p.saw_open_heading p.saw_resolved_heading p.section
            (squeeze (join " " p.entry_text)) p.entry_href p.entry_is_header_row seen) in
      rw e (seen, (more, λ no. ground (arith, outside no)))
  | inr e ↦ rw e (seen, (listed, λ no. ground (arith, outside no)))
]

handle_endtag-IsSound : (tag : String) (p : Parser) → IsSound p → IsSound (handle_endtag tag p)
unfolding handle_endtag
handle_endtag-IsSound tag p h =
    ground (
      arith,
      h,
      close_heading-IsSound (strip (join " " p.heading_text)) p h,
      close_entry-IsSound p h,
    )

handle-IsSound : (e : Event) (p : Parser) → IsSound p → IsSound (handle e p)
unfolding handle
handle-IsSound (start_tag tag attrs) p h = handle_starttag-IsSound tag attrs p h
handle-IsSound (end_tag tag) p h = handle_endtag-IsSound tag p h
handle-IsSound (data_text s) p h = handle_data-IsSound s p h

feed-keeps_IsSound : (es : List Event) (p : Parser) → IsSound p → IsSound (feed es p)
unfolding feed
feed-keeps_IsSound [] p h = h
feed-keeps_IsSound (e ∷ es) p h = feed-keeps_IsSound es (handle e p) (handle-IsSound e p h)

-- Whatever tags and texts a page is made of, each entry that the parser collects has a text and stands
-- in a section whose heading was seen, and no entry is open outside the sections.
pub feed-IsSound : (es : List Event) → IsSound (feed es new_parser)
feed-IsSound es = feed-keeps_IsSound es new_parser (tt, (tt, λ _. refl))
