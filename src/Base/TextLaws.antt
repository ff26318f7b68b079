-- ===== src/Base/TextLaws.antt =====
-- Laws of texts that the libraries do not have.
use Prim.Native.Nat.{ℕ}
use Prim.Native.Char.{Char, code}
use mathlib.Core.Logic.{◌≢◌}
use Prim.Native.String.{String, ◌++◌}
use Prim.Native.String.append
use mathlib.Core.Bool.{Bool, true, false}
use mathlib.Core.Path.{◌≡◌, sym, ◌∙◌, ap}

tail_of : String → String
tail_of String.[] = ""
tail_of (String.◌∷◌ c s) = s

-- A common beginning cancels.
pub append_cancel_left : (s t u : String) → s ++ t ≡ s ++ u → t ≡ u
unfolding tail_of
append_cancel_left String.[] t u h = sym (append.nil t) ∙ h ∙ append.nil u
append_cancel_left (String.◌∷◌ c s) t u h =
    append_cancel_left s t u (ap tail_of (sym (append.cons c s t) ∙ h ∙ append.cons c s u))

pub append_assoc : (s t u : String) → (s ++ t) ++ u ≡ s ++ (t ++ u)
append_assoc String.[] t u = cc (append.nil t, append.nil (t ++ u))
append_assoc (String.◌∷◌ c s) t u =
    cc (append.cons c s t, append.cons c (s ++ t) u, append.cons c s (t ++ u), append_assoc s t u)

first_code : String → ℕ
first_code String.[] = 0
first_code (String.◌∷◌ c s) = code c

-- Texts that begin with different characters differ, whatever follows.
pub append_differs :
    (c d : Char) (s t u v : String) → code c ≢ code d → String.◌∷◌ c s ++ u ≢ String.◌∷◌ d t ++ v
unfolding first_code
append_differs c d s t u v h e = h (ap first_code (sym (append.cons c s u) ∙ e ∙ append.cons d t v))

is_nil : String → Bool
is_nil String.[] = true
is_nil (String.◌∷◌ c s) = false

-- A text that begins with a character is not empty, whatever follows.
pub append_ne_nil : (c : Char) (s u : String) → String.◌∷◌ c s ++ u ≢ ""
unfolding is_nil
append_ne_nil c s u e = cc (ap is_nil (sym (append.cons c s u) ∙ e))
