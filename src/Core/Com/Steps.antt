-- ===== src/Core/Com/Steps.antt =====
-- How many calls a step makes, and which.
use hpe_com_event_integratio.Base.{
  ℕ, ◌+◌, ◌≤◌, Bool, true, false, arith, length, All, if◌then◌else◌,
}
use hpe_com_event_integratio.Python.{Result, ok, raised}
use hpe_com_event_integratio.Core.Com.{
  Com, ComState, Step, Call, Transport, send, ◌>>=◌, and_then, lift, or_none, attempt,
}

-- At most `k` calls, whatever the state.
abbrev pub Adds {ℓ} : {A : Type ℓ} → ℕ → Com A → Type 0
Adds k m = (s : ComState) → length (m s).1.calls ≤ length s.calls + k

module _ {ℓ κ} {A : Type ℓ} {B : Type κ} where
  and_then-length :
      (a b : ℕ) (f : A → Com B)
      → ((x : A) → Adds b (f x))
      → (n : ℕ) (r : Result A × ComState) → length r.1.calls ≤ n + a
      → length (and_then f r).1.calls ≤ n + (a + b)
  and_then-length a b f hf n (ok x, s) h = omega (arith, hf x s, h)
  and_then-length a b f hf n (raised e, s) h = omega (arith, h)

  pub >>=-Adds :
      (a b : ℕ) (m : Com A) (f : A → Com B)
      → Adds a m
      → ((x : A) → Adds b (f x))
      → Adds (a + b) (m >>= f)
  >>=-Adds a b m f hm hf s = and_then-length a b f hf (length s.calls) (m s) (hm s)

pub lift-Adds {ℓ} : {A : Type ℓ} (r : Result A) → Adds 0 (lift r)
lift-Adds r s = omega arith

pub send-Adds : (t : Transport) (c : Call) → Adds 1 (send t c)
unfolding send
send-Adds t c s = omega arith

-- What a step keeps true of its state, whether it returns or raises.
module _ {S : Type 0} (I : S → Type 0) where
  abbrev pub Keeps {ℓ} : {A : Type ℓ} → Step S A → Type 0
  Keeps m = (s : S) → I s → I (m s).1

  and_then-Keeps {ℓ κ} :
      {A : Type ℓ} {B : Type κ} (f : A → Step S B)
      → ((x : A) → Keeps (f x))
      → (r : Result A × S) → I r.1
      → I (and_then f r).1
  and_then-Keeps f hf (ok x, s) h = hf x s h
  and_then-Keeps f hf (raised e, s) h = h

  pub >>=-Keeps {ℓ κ} :
      {A : Type ℓ} {B : Type κ} (m : Step S A) (f : A → Step S B)
      → Keeps m
      → ((x : A) → Keeps (f x))
      → Keeps (m >>= f)
  >>=-Keeps m f hm hf s h = and_then-Keeps f hf (m s) (hm s h)

  pub lift-Keeps {ℓ} : {A : Type ℓ} (r : Result A) → Keeps (lift r)
  lift-Keeps r s h = h

  -- First a value that needs no state.
  pub lift->>=-Keeps {ℓ κ} :
      {A : Type ℓ} {B : Type κ} (r : Result A) (f : A → Step S B)
      → ((x : A) → Keeps (f x))
      → Keeps (lift r >>= f)
  lift->>=-Keeps r f hf s h = and_then-Keeps f hf (r, s) h

  or_none-Keeps {ℓ} : {A : Type ℓ} (r : Result A × S) → I r.1 → I (or_none r).1
  or_none-Keeps (ok x, s) h = h
  or_none-Keeps (raised e, s) h = h

  pub attempt-Keeps {ℓ} : {A : Type ℓ} (m : Step S A) → Keeps m → Keeps (attempt m)
  attempt-Keeps m hm s h = or_none-Keeps (m s) (hm s h)

  pub if-Keeps {ℓ} :
      {A : Type ℓ} (b : Bool) (m n : Step S A) → Keeps m → Keeps n → Keeps (if b then m else n)
  if-Keeps true m n hm hn = hm
  if-Keeps false m n hm hn = hn

-- Only calls with the property.
abbrev pub Sent : (Call → Type 0) → ComState → Type 0
Sent P s = All P s.calls

pub send-Keeps : (P : Call → Type 0) (t : Transport) (c : Call) → P c → Keeps (Sent P) (send t c)
unfolding send
send-Keeps P t c p s h = (p, h)

-- A property of what a step returns, if it returns.
abbrev pub OnOk {ℓ} : {A : Type ℓ} → (A → Type 0) → Result A × ComState → Type 0
OnOk P (ok x, s) = P x
OnOk P (raised e, s) = Unit

pub and_then-OnOk {ℓ κ} :
    {A : Type ℓ} {B : Type κ} (P : B → Type 0) (f : A → Com B)
    → ((x : A) (s : ComState) → OnOk P (f x s))
    → (r : Result A × ComState) → OnOk P (and_then f r)
and_then-OnOk P f hf (ok x, s) = hf x s
and_then-OnOk P f hf (raised e, s) = tt

-- A step that leads from states of one kind to states of another, where a state of the middle kind may
-- be left by an exception.
module _ {S : Type 0} (J K : S → Type 0) (weaken : (s : S) → J s → K s) where
  pub and_then-leads {ℓ κ} :
      {A : Type ℓ} {B : Type κ} (f : A → Step S B)
      → ((x : A) (s : S) → J s → K (f x s).1)
      → (r : Result A × S) → J r.1
      → K (and_then f r).1
  and_then-leads f hf (ok x, s) h = hf x s h
  and_then-leads f hf (raised e, s) h = weaken s h

-- What holds of the value and the state where a step returns.
abbrev pub Ends {ℓ} : {S : Type 0} {A : Type ℓ} → (A → S → Type 0) → Result A × S → Type 0
Ends P (ok x, s) = P x s
Ends P (raised e, s) = Unit

pub and_then-Ends {ℓ κ} :
    {S : Type 0} {A : Type ℓ} {B : Type κ} (P : B → S → Type 0) (f : A → Step S B)
    → ((x : A) (s : S) → Ends P (f x s))
    → (r : Result A × S) → Ends P (and_then f r)
and_then-Ends P f hf (ok x, s) = hf x s
and_then-Ends P f hf (raised e, s) = tt

pub and_then-Ends_from {ℓ κ} :
    {S : Type 0} {A : Type ℓ} {B : Type κ} (Q : A → S → Type 0) (P : B → S → Type 0)
    (f : A → Step S B)
    → ((x : A) (s : S) → Q x s → Ends P (f x s))
    → (r : Result A × S) → Ends Q r
    → Ends P (and_then f r)
and_then-Ends_from Q P f hf (ok x, s) h = hf x s h
and_then-Ends_from Q P f hf (raised e, s) h = tt

-- What a step keeps true, it also keeps where it returns.
pub Keeps-Ends {ℓ} :
    {S : Type 0} {A : Type ℓ} (I : S → Type 0) (r : Result A × S) → I r.1 → Ends (λ x s. I s) r
Keeps-Ends I (ok x, s) h = h
Keeps-Ends I (raised e, s) h = tt

pub Ends-both {ℓ} :
    {S : Type 0} {A : Type ℓ} (P Q : A → S → Type 0) (r : Result A × S)
    → Ends P r
    → Ends Q r
    → Ends (λ x s. P x s × Q x s) r
Ends-both P Q (ok x, s) p q = (p, q)
Ends-both P Q (raised e, s) p q = tt
