-- ===== src/Bridge/Spool/Sound.antt =====
-- What every operation of the spool keeps.
use hpe_com_event_integratio.Base.{
  ℕ, ◌+◌, ◌≤◌, ◌<◌, String, Bool, true, false, List, [], ◌∷◌, ◌++◌, ◌≡◌, refl, arith, length,
  if◌then◌else◌,
}
use native.Mathlib.Nat.{le_refl, le_trans}
use hpe_com_event_integratio.Bridge.Spool.{
  Bytes, Row, SpoolStore, same_lane, lane_bytes, budget, put_lane, new_row, without, delete,
  updated, reschedule,
}

-- Ids rise strictly from `lo`, and none is above `hi`.
abbrev pub Rising : ℕ → List Row → ℕ → Type 0
Rising lo [] hi = lo ≤ hi
Rising lo (r ∷ rows) hi = (lo < r.id) × Rising r.id rows hi

-- The rows stand in the order of their ids, all given out already, and each lane is in its budget.
pub record IsSound (s : SpoolStore) : Type 0 where
  pub ordered : Rising 0 s.rows s.seq
  pub in_budget : (lane : Bool) → lane_bytes lane s.rows ≤ budget lane s

Rising-weaken :
    (lo lo' hi : ℕ) (rows : List Row) → lo' ≤ lo → Rising lo rows hi → Rising lo' rows hi
Rising-weaken lo lo' hi [] le h = le_trans le h
Rising-weaken lo lo' hi (r ∷ rows) le h = (le_trans (omega arith) h.0, h.1)

Rising-append :
    (lo hi : ℕ) (rows : List Row) (r : Row)
    → r.id ≡ hi + 1
    → Rising lo rows hi
    → Rising lo (rows ++ r ∷ []) (hi + 1)
Rising-append lo hi [] r e h = (omega arith, omega arith)
Rising-append lo hi (q ∷ rows) r e h = (h.0, Rising-append q.id hi rows r e h.1)

Rising-without :
    (lo hi id : ℕ) (rows : List Row) → Rising lo rows hi → Rising lo (without id rows) hi
unfolding without
Rising-without lo hi id [] h = h
Rising-without lo hi id (r ∷ rows) h =
    let rest = Rising-without r.id hi id rows h.1 in
    ground (arith, rest, Rising-weaken r.id lo hi (without id rows) (omega arith) rest)

Rising-updated :
    (lo hi id attempts next : ℕ) (rows : List Row)
    → Rising lo rows hi
    → Rising lo (updated id attempts next rows) hi
unfolding updated
Rising-updated lo hi id attempts next [] h = h
Rising-updated lo hi id attempts next (r ∷ rows) h =
    ground (arith, Rising-updated r.id hi id attempts next rows h.1)

lane_bytes-append :
    (lane : Bool) (rows : List Row) (r : Row)
    → lane_bytes lane (rows ++ r ∷ [])
      ≡ lane_bytes lane rows + (if same_lane r.enrich lane then length r.body else 0)
unfolding lane_bytes
lane_bytes-append lane [] r = omega arith
lane_bytes-append lane (q ∷ rows) r = omega (arith, lane_bytes-append lane rows r)

lane_bytes-without :
    (lane : Bool) (id : ℕ) (rows : List Row)
    → lane_bytes lane (without id rows) ≤ lane_bytes lane rows
unfolding lane_bytes without
lane_bytes-without lane id [] = le_refl _
lane_bytes-without lane id (r ∷ rows) = ground (arith, lane_bytes-without lane id rows)

lane_bytes-updated :
    (lane : Bool) (id attempts next : ℕ) (rows : List Row)
    → lane_bytes lane (updated id attempts next rows) ≡ lane_bytes lane rows
unfolding lane_bytes updated
lane_bytes-updated lane id attempts next [] = refl
lane_bytes-updated lane id attempts next (r ∷ rows) =
    ground (arith, lane_bytes-updated lane id attempts next rows)

put_lane-in_budget :
    (lane enrich : Bool) (now : ℕ) (body : Bytes) (properties : List (String × String))
    (s : SpoolStore)
    → lane_bytes lane s.rows ≤ budget lane s
    → let t = (put_lane enrich now body properties s).1 in lane_bytes lane t.rows ≤ budget lane t
unfolding put_lane
put_lane-in_budget true true now body properties s h =
    ground (arith, lane_bytes-append true s.rows (new_row true now body properties s))
put_lane-in_budget true false now body properties s h =
    ground (arith, lane_bytes-append true s.rows (new_row false now body properties s))
put_lane-in_budget false true now body properties s h =
    ground (arith, lane_bytes-append false s.rows (new_row true now body properties s))
put_lane-in_budget false false now body properties s h =
    ground (arith, lane_bytes-append false s.rows (new_row false now body properties s))

put_lane-ordered :
    (enrich : Bool) (now : ℕ) (body : Bytes) (properties : List (String × String)) (s : SpoolStore)
    → Rising 0 s.rows s.seq
    → let t = (put_lane enrich now body properties s).1 in Rising 0 t.rows t.seq
unfolding put_lane
put_lane-ordered enrich now body properties s h =
    ground (arith, Rising-append 0 s.seq s.rows (new_row enrich now body properties s) refl h)

pub put_lane-IsSound :
    (enrich : Bool) (now : ℕ) (body : Bytes) (properties : List (String × String)) (s : SpoolStore)
    → IsSound s
    → IsSound (put_lane enrich now body properties s).1
put_lane-IsSound enrich now body properties s h = record {
  ordered = put_lane-ordered enrich now body properties s h.ordered;
  in_budget = λ lane. put_lane-in_budget lane enrich now body properties s (h.in_budget lane);
}

pub delete-IsSound : (id : ℕ) (s : SpoolStore) → IsSound s → IsSound (delete id s)
unfolding delete
delete-IsSound id s h = record {
  ordered = Rising-without 0 s.seq id s.rows h.ordered;
  in_budget = λ lane. ground (arith, lane_bytes-without lane id s.rows, h.in_budget lane);
}

pub reschedule-IsSound :
    (id attempts next : ℕ) (s : SpoolStore) → IsSound s → IsSound (reschedule id attempts next s)
unfolding reschedule
reschedule-IsSound id attempts next s h = record {
  ordered = Rising-updated 0 s.seq id attempts next s.rows h.ordered;
  in_budget =
      λ lane. ground (arith, lane_bytes-updated lane id attempts next s.rows, h.in_budget lane);
}

-- A call of one of the methods that write, by the HTTP handler or by the worker.
pub data Call : Type 0 where
  puts : Bool → ℕ → Bytes → List (String × String) → Call
  deletes : ℕ → Call
  reschedules : ℕ → ℕ → ℕ → Call

unfoldable pub perform : Call → SpoolStore → SpoolStore
perform (puts enrich now body properties) s = (put_lane enrich now body properties s).1
perform (deletes id) s = delete id s
perform (reschedules id attempts next) s = reschedule id attempts next s

-- The calls in the order in which the lock lets them in.
unfoldable pub perform_all : List Call → SpoolStore → SpoolStore
unfolding perform
perform_all [] s = s
perform_all (call ∷ calls) s = perform_all calls (perform call s)

pub perform-IsSound : (call : Call) (s : SpoolStore) → IsSound s → IsSound (perform call s)
unfolding perform
perform-IsSound (puts enrich now body properties) s h =
    put_lane-IsSound enrich now body properties s h
perform-IsSound (deletes id) s h = delete-IsSound id s h
perform-IsSound (reschedules id attempts next) s h = reschedule-IsSound id attempts next s h

-- In whatever order the calls of the two threads come, a sound spool stays sound: rows in the order
-- of their ids, no id above the last one given out, each lane within its own budget.
pub perform_all-IsSound :
    (calls : List Call) (s : SpoolStore) → IsSound s → IsSound (perform_all calls s)
unfolding perform_all
perform_all-IsSound [] s h = h
perform_all-IsSound (call ∷ calls) s h =
    perform_all-IsSound calls (perform call s) (perform-IsSound call s h)
