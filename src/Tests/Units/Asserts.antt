-- ===== src/Tests/Units/Asserts.antt =====
-- What the assertions of the unit tests compare.
use red_monkey.Common.{
  ℕ, Text, ◌==◌, eqb, Bool, true, false, ◌&&◌, Option, none, some, List, [], ◌∷◌, Result, ok, err,
}
use red_monkey.Store.Fault.{Fault, FaultVariants, delay, error, drop_conn}

abbrev pub option_eq {ℓ} : {A : Type ℓ} → (A → A → Bool) → Option A → Option A → Bool
option_eq eq none none = true
option_eq eq (some a) (some b) = eq a b
option_eq eq none (some b) = false
option_eq eq (some a) none = false

abbrev pub variant_eq : FaultVariants → FaultVariants → Bool
variant_eq delay delay = true
variant_eq error error = true
variant_eq drop_conn drop_conn = true
variant_eq _ _ = false

abbrev pub text_eq : Text → Text → Bool
text_eq s t = s == t

-- The derived `PartialEq` of `Fault`, at times that are numbers.
abbrev pub fault_eq : Fault ℕ → Fault ℕ → Bool
fault_eq f g =
    text_eq f.name g.name
    && option_eq text_eq f.description g.description
    && variant_eq f.fault_type g.fault_type
    && option_eq eqb f.duration g.duration
    && option_eq text_eq f.error_msg g.error_msg
    && text_eq f.command g.command
    && option_eq eqb f.last_modified g.last_modified

-- `assert_eq!` on the value of an `Ok`; an `Err` panics, so fails the test.
abbrev pub ok_and {ℓ κ} : {E : Type ℓ} {A : Type κ} → (A → Bool) → Result E A → Bool
ok_and test (ok a) = test a
ok_and test (err e) = false

abbrev pub is_ok {ℓ κ} : {E : Type ℓ} {A : Type κ} → Result E A → Bool
is_ok = ok_and (λ _. true)

abbrev pub some_and {ℓ} : {A : Type ℓ} → (A → Bool) → Option A → Bool
some_and test none = false
some_and test (some a) = test a

abbrev pub texts_eq : List Text → List Text → Bool
texts_eq [] [] = true
texts_eq (s ∷ l) (t ∷ r) = s == t && texts_eq l r
texts_eq [] (t ∷ r) = false
texts_eq (s ∷ l) [] = false
