-- ===== src/Common/Strings.antt =====
-- Rust's `str`, `String` and byte buffers: a text is the list of its UTF-8 bytes.
use Prim.Native.Nat.{ℕ}
use Prim.Native.Char.{code}
use Prim.Native.String.{String}
use mathlib.Core.Path.{◌≡◌, refl}
use mathlib.Core.Logic.{◌↔◌}
use mathlib.Core.Bool.{Bool, true, false}
use mathlib.Core.List.{List, [], ◌∷◌}
use native.Mathlib.Decide.{ℕ_discrete}
use native.Mathlib.Omega.{arith}

abbrev pub Bytes : Type 0
Bytes = List ℕ

abbrev pub Text : Type 0
Text = List ℕ

-- The bytes of an ASCII literal.
abbrev pub codes : String → Text
codes String.[] = []
codes (String.◌∷◌ c s) = code c ∷ codes s

cons_dec : {a b : ℕ} {s t : Text} → Dec (a ≡ b) → Dec (s ≡ t) → Dec (a ∷ s ≡ b ∷ t)
cons_dec (yes p) (yes q) = yes (cc)
cons_dec (yes p) (no h) = no (λ e. h (cc))
cons_dec (no h) d = no (λ e. h (cc))

unfoldable pub text_dec : (s t : Text) → Dec (s ≡ t)
unfolding cons_dec ℕ_discrete
text_dec [] [] = yes refl
text_dec [] (b ∷ t) = no (λ e. cc)
text_dec (a ∷ s) [] = no (λ e. cc)
text_dec (a ∷ s) (b ∷ t) = cons_dec (ℕ_discrete a b) (text_dec s t)

infix 50 ◌==◌
abbrev pub ◌==◌ : Text → Text → Bool
s == t = elim (text_dec s t) [ yes _ ↦ true | no _ ↦ false ]

pub ==_iff : (s t : Text) → ((s == t) ≡ true) ↔ (s ≡ t)
==_iff s t = ground arith

pub ==_refl : (s : Text) → (s == s) ≡ true
==_refl s = ground arith

literal_test : (codes "GET" == codes "GET") ≡ true
unfolding text_dec
literal_test = refl
