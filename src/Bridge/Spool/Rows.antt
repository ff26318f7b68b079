-- ===== src/Bridge/Spool/Rows.antt =====
-- Which rows the operations of the spool keep.
use hpe_com_event_integratio.Base.{
  ℕ, Bool, true, false, List, [], ◌∷◌, ◌++◌, ◌≡◌, ◌≢◌, refl, arith, nat_eq, if◌then◌else◌, ◌||◌,
}
use hpe_com_event_integratio.Bridge.Spool.{
  Row, SpoolStore, put_lane, new_row, without, delete, updated, reschedule,
}
use hpe_com_event_integratio.Bridge.Spool.Sound.{
  Call, puts, deletes, reschedules, perform, perform_all,
}

-- Whether a row with this id is there.
unfoldable pub has_row : ℕ → List Row → Bool
has_row id [] = false
has_row id (r ∷ rows) = nat_eq r.id id || has_row id rows

pub has_row-append :
    (id : ℕ) (rows more : List Row) → has_row id rows ≡ true → has_row id (rows ++ more) ≡ true
unfolding has_row
has_row-append id (r ∷ rows) more h = ground (arith, has_row-append id rows more)
has_row-append id [] more h = cc

pub has_row-without :
    (id other : ℕ) (rows : List Row)
    → has_row id (without other rows) ≡ (if nat_eq other id then false else has_row id rows)
unfolding has_row without
has_row-without id other [] = ground arith
has_row-without id other (r ∷ rows) = ground (arith, has_row-without id other rows)

pub has_row-updated :
    (id other attempts next : ℕ) (rows : List Row)
    → has_row id (updated other attempts next rows) ≡ has_row id rows
unfolding has_row updated
has_row-updated id other attempts next [] = refl
has_row-updated id other attempts next (r ∷ rows) =
    ground (arith, has_row-updated id other attempts next rows)

abbrev pub DeletesNot : ℕ → List Call → Type 0
DeletesNot id [] = Unit
DeletesNot id (deletes other ∷ calls) = (other ≢ id) × DeletesNot id calls
DeletesNot id (_ ∷ calls) = DeletesNot id calls

perform-has_row :
    (id : ℕ) (call : Call) (s : SpoolStore)
    → DeletesNot id (call ∷ [])
    → has_row id s.rows ≡ true
    → has_row id (perform call s).rows ≡ true
unfolding perform put_lane delete reschedule
perform-has_row id (puts enrich now body properties) s d h =
    ground (arith, has_row-append id s.rows (new_row enrich now body properties s ∷ []))
perform-has_row id (deletes other) s d h = ground (arith, has_row-without id other s.rows)
perform-has_row id (reschedules other attempts next) s d h =
    ground (arith, has_row-updated id other attempts next s.rows)

-- A row is lost only to a deletion of its own id.
pub perform_all-has_row :
    (id : ℕ) (calls : List Call) (s : SpoolStore)
    → DeletesNot id calls
    → has_row id s.rows ≡ true
    → has_row id (perform_all calls s).rows ≡ true
unfolding perform_all
perform_all-has_row id [] s d h = h
perform_all-has_row id (puts enrich now body properties ∷ calls) s d h =
    perform_all-has_row id calls _ d (perform-has_row id (puts enrich now body properties) s tt h)
perform_all-has_row id (deletes other ∷ calls) s d h =
    perform_all-has_row id calls _ d.1 (perform-has_row id (deletes other) s (d.0, tt) h)
perform_all-has_row id (reschedules other attempts next ∷ calls) s d h =
    perform_all-has_row id calls _ d (perform-has_row id (reschedules other attempts next) s tt h)

-- An update of a row that is gone changes nothing.
pub updated-without_self :
    (id attempts next : ℕ) (rows : List Row)
    → updated id attempts next (without id rows) ≡ without id rows
unfolding updated without
updated-without_self id attempts next [] = refl
updated-without_self id attempts next (r ∷ rows) =
    ground (arith, updated-without_self id attempts next rows)

pub without-without_self :
    (id : ℕ) (rows : List Row) → without id (without id rows) ≡ without id rows
unfolding without
without-without_self id [] = refl
without-without_self id (r ∷ rows) = ground (arith, without-without_self id rows)
