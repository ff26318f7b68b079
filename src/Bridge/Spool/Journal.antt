-- ===== src/Bridge/Spool/Journal.antt =====
-- What the spool promises, without its rows, lanes, attempts and times: a journal of bodies under ids.
-- A body that is taken gets a new id; it stays under this id until the id is deleted.
use mathlib.Core.Path.{subst}
use hpe_com_event_integratio.Base.{
  ℕ, String, ◌+◌, ◌<◌, ◌≤◌, Bool, true, false, List, [], ◌∷◌, ◌++◌, Option, none, some, ◌≡◌, refl,
  sym, arith, nat_eq, length, ltb, Bool-cases, inl, inr, if◌then◌else◌,
}
use hpe_com_event_integratio.Bridge.Spool.{
  Bytes, Row, SpoolStore, budget, lane_bytes, put_lane, new_row, without, delete, updated,
  reschedule,
}
use hpe_com_event_integratio.Bridge.Spool.Sound.{
  Rising, IsSound, Call, puts, deletes, reschedules, perform, perform_all, perform-IsSound,
}

pub record Journal : Type 0 where
  pub bodies : ℕ → Option Bytes
  pub last_id : ℕ

-- One step of the journal for one call of the spool.
pub data Step (j k : Journal) : Call → Type 0 where
  taken :
      {lane : Bool} {now : ℕ} {body : Bytes} {properties : List (String × String)}
      → k.last_id ≡ j.last_id + 1
      → j.bodies (j.last_id + 1) ≡ none
      → ((id : ℕ) → k.bodies id ≡ (if nat_eq id (j.last_id + 1) then some body else j.bodies id))
      → Step j k (puts lane now body properties)
  refused :
      {lane : Bool} {now : ℕ} {body : Bytes} {properties : List (String × String)}
      → k ≡ j
      → Step j k (puts lane now body properties)
  removed :
      {other : ℕ}
      → k.last_id ≡ j.last_id
      → ((id : ℕ) → k.bodies id ≡ (if nat_eq id other then none else j.bodies id))
      → Step j k (deletes other)
  put_off :
      {other attempts next : ℕ}
      → k.last_id ≡ j.last_id
      → ((id : ℕ) → k.bodies id ≡ j.bodies id)
      → Step j k (reschedules other attempts next)

-- A run of the journal for a sequence of calls.
pub data Run : Journal → Journal → List Call → Type 0 where
  done : {j : Journal} → Run j j []
  then_step :
      {j k l : Journal} {call : Call} {calls : List Call}
      → Step j k call
      → Run k l calls
      → Run j l (call ∷ calls)

-- The body under an id.
unfoldable pub body_of : ℕ → List Row → Option Bytes
body_of id [] = none
body_of id (r ∷ rows) = let rest = body_of id rows in if nat_eq id r.id then some r.body else rest

-- What the journal sees of the spool.
abbrev pub view : SpoolStore → Journal
view s = record { bodies = λ id. body_of id s.rows; last_id = s.seq }

Rising-le : (lo hi : ℕ) (rows : List Row) → Rising lo rows hi → lo ≤ hi
Rising-le lo hi [] h = h
Rising-le lo hi (r ∷ rows) (lt, h) = omega (arith, lt, Rising-le r.id hi rows h)

body_of-fresh :
    (lo hi id : ℕ) (rows : List Row) → Rising lo rows hi → hi < id → body_of id rows ≡ none
unfolding body_of
body_of-fresh lo hi id [] h lt = refl
body_of-fresh lo hi id (r ∷ rows) h lt =
    ground (arith, Rising-le r.id hi rows h.1, body_of-fresh r.id hi id rows h.1 lt)

body_of-append :
    (id : ℕ) (rows : List Row) (r : Row)
    → body_of r.id rows ≡ none
    → body_of id (rows ++ r ∷ []) ≡ (if nat_eq id r.id then some r.body else body_of id rows)
unfolding body_of
body_of-append id [] r h = refl
body_of-append id (q ∷ rows) r h = ground (arith, h, body_of-append id rows r)

body_of-without :
    (id other : ℕ) (rows : List Row)
    → body_of id (without other rows) ≡ (if nat_eq id other then none else body_of id rows)
unfolding body_of without
body_of-without id other [] = ground arith
body_of-without id other (r ∷ rows) = ground (arith, body_of-without id other rows)

body_of-updated :
    (id other attempts next : ℕ) (rows : List Row)
    → body_of id (updated other attempts next rows) ≡ body_of id rows
unfolding body_of updated
body_of-updated id other attempts next [] = refl
body_of-updated id other attempts next (r ∷ rows) =
    ground (arith, body_of-updated id other attempts next rows)

module _ (lane : Bool) (now : ℕ) (body : Bytes) (properties : List (String × String))
    (s : SpoolStore) where
  kept_out :
      ltb (budget lane s) (lane_bytes lane s.rows + length body) ≡ true
      → (put_lane lane now body properties s).1 ≡ s
  unfolding put_lane
  kept_out e = rw e refl

  let_in :
      ltb (budget lane s) (lane_bytes lane s.rows + length body) ≡ false
      → (put_lane lane now body properties s).1
        ≡ record s { rows = s.rows ++ new_row lane now body properties s ∷ []; seq = s.seq + 1 }
  unfolding put_lane
  let_in e = rw e refl

  put_lane-Step :
      IsSound s
      → Step (view s) (view (put_lane lane now body properties s).1) (puts lane now body properties)
  put_lane-Step h =
      let fresh = body_of-fresh 0 s.seq (s.seq + 1) s.rows h.ordered (omega arith) in
      elim (Bool-cases (ltb (budget lane s) (lane_bytes lane s.rows + length body))) [
        | inl e ↦
            subst (λ t. Step (view s) (view t) (puts lane now body properties)) (sym (kept_out e))
              (refused refl)
        | inr e ↦
            subst (λ t. Step (view s) (view t) (puts lane now body properties)) (sym (let_in e))
              (taken refl fresh
                (λ id. body_of-append id s.rows (new_row lane now body properties s) fresh))
      ]

perform-Step :
    (call : Call) (s : SpoolStore) → IsSound s → Step (view s) (view (perform call s)) call
unfolding perform delete reschedule
perform-Step (puts lane now body properties) s h = put_lane-Step lane now body properties s h
perform-Step (deletes other) s h = removed refl (λ id. body_of-without id other s.rows)
perform-Step (reschedules other attempts next) s h =
    put_off refl (λ id. body_of-updated id other attempts next s.rows)

-- The spool refines the journal: in whatever order the calls of the two threads come, what a sound spool
-- holds at the end is what a run of the journal for the same calls leads to.
pub perform_all-Run :
    (calls : List Call) (s : SpoolStore)
    → IsSound s
    → Run (view s) (view (perform_all calls s)) calls
unfolding perform_all
perform_all-Run [] s h = done
perform_all-Run (call ∷ calls) s h =
    then_step (perform-Step call s h)
      (perform_all-Run calls (perform call s) (perform-IsSound call s h))
