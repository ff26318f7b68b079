-- ===== src/Bridge/Spool.antt =====
-- `SpoolStore` of com-event-bridge/bridge/core/spool.py. The table holds its rows in the order of
-- insertion; `seq` is the last id that AUTOINCREMENT gave out.
pub mod Sound
pub mod Rows
pub mod Journal
use hpe_com_event_integratio.Base.{
  ℕ, ◌+◌, String, Bool, true, false, List, [], ◌∷◌, ◌++◌, Option, none, some, length, ltb, leb,
  nat_eq, if◌then◌else◌,
}

abbrev pub Bytes : Type 0
Bytes = List ℕ

pub record Row : Type 0 where
  pub id : ℕ
  pub body : Bytes
  pub properties : List (String × String)
  pub enqueued_at : ℕ
  pub attempts : ℕ
  pub next_attempt : ℕ
  pub enrich : Bool

pub record SpoolStore : Type 0 where
  pub max_bytes : ℕ
  pub overflow_max_bytes : ℕ
  pub rows : List Row
  pub seq : ℕ

-- What `put` does: it returns the new id, or raises `SpoolFull`.
pub data Stored : Type 0 where
  stored : ℕ → Stored
  spool_full : Stored

abbrev pub same_lane : Bool → Bool → Bool
same_lane true true = true
same_lane false false = true
same_lane _ _ = false

-- `SELECT COALESCE(SUM(LENGTH(body)), 0) FROM spool WHERE enrich = ?`
unfoldable pub lane_bytes : Bool → List Row → ℕ
lane_bytes lane [] = 0
lane_bytes lane (r ∷ rows) =
    (if same_lane r.enrich lane then length r.body else 0) + lane_bytes lane rows

abbrev pub budget : Bool → SpoolStore → ℕ
budget true s = s.max_bytes
budget false s = s.overflow_max_bytes

-- The row that `_put` inserts.
abbrev pub new_row : Bool → ℕ → Bytes → List (String × String) → SpoolStore → Row
new_row enrich now body properties s = record {
  id = s.seq + 1;
  body = body;
  properties = properties;
  enqueued_at = now;
  attempts = 0;
  next_attempt = now;
  enrich = enrich;
}

-- `_put`; `enrich` is the lane.
unfoldable pub put_lane :
    Bool → ℕ → Bytes → List (String × String) → SpoolStore → Stored × SpoolStore
unfolding lane_bytes
put_lane enrich now body properties s =
    if ltb (budget enrich s) (lane_bytes enrich s.rows + length body) then (spool_full, s) else (
      stored (s.seq + 1),
      record s { rows = s.rows ++ new_row enrich now body properties s ∷ []; seq = s.seq + 1 },
    )

abbrev pub put : ℕ → Bytes → List (String × String) → SpoolStore → Stored × SpoolStore
put = put_lane true

abbrev pub put_overflow : ℕ → Bytes → List (String × String) → SpoolStore → Stored × SpoolStore
put_overflow = put_lane false

-- `SELECT ... WHERE next_attempt <= ? ORDER BY id ASC LIMIT 1`
unfoldable pub first_due : ℕ → List Row → Option Row
first_due now [] = none
first_due now (r ∷ rows) = if leb r.next_attempt now then some r else first_due now rows

unfoldable pub claim_due : ℕ → SpoolStore → Option Row
unfolding first_due
claim_due now s = first_due now s.rows

unfoldable pub without : ℕ → List Row → List Row
without id [] = []
without id (r ∷ rows) = let rest = without id rows in if nat_eq r.id id then rest else r ∷ rest

unfoldable pub delete : ℕ → SpoolStore → SpoolStore
unfolding without
delete id s = record s { rows = without id s.rows }

unfoldable pub updated : ℕ → ℕ → ℕ → List Row → List Row
updated id attempts next_attempt [] = []
updated id attempts next_attempt (r ∷ rows) =
    (if nat_eq r.id id then record r { attempts = attempts; next_attempt = next_attempt } else r)
    ∷ updated id attempts next_attempt rows

unfoldable pub reschedule : ℕ → ℕ → ℕ → SpoolStore → SpoolStore
unfolding updated
reschedule id attempts next_attempt s = record s { rows = updated id attempts next_attempt s.rows }

unfoldable pub pending : SpoolStore → ℕ
pending s = length s.rows
