-- ===== src/LogFilter/Result.antt =====
-- internal/logfilter: the errors that parse.go and plan.go return, one constructor for each
-- message, with what the message quotes, and the outcome of a fallible call.
use zordon.Base.{ℕ, ◌≡◌, ◌≢◌, refl, Bool, true, false, if◌then◌else◌, Bytes}

pub data Error : Type 0 where
  bad_operator bad_character unexpected_token : Bytes → ℕ → Error
  unterminated_string expected_close expected_comma_or_close : ℕ → Error
  lone_identifier must_be_compared unknown_function bad_pattern : Bytes → Error
  one_argument two_arguments argument_not_line first_not_line second_not_string : Bytes → Error
  not_a_condition two_fields no_field meta_operator meta_literal severity_literal : Error
  logfmt_operator logfmt_literal json_operator json_literal : Error

-- `out_of_fuel` has no counterpart in the program.
pub data Result {ℓ} (A : Type ℓ) : Type ℓ where
  ok : A → Result A
  err : Error → Result A
  out_of_fuel : Result A

infixl 5 ◌>>=◌
abbrev pub ◌>>=◌ {ℓ κ} : {A : Type ℓ} {B : Type κ} → Result A → (A → Result B) → Result B
ok a >>= f = f a
err e >>= f = err e
out_of_fuel >>= f = out_of_fuel

-- The call kept within its fuel, and `P` holds of its value if it has one.
pub data Ensures {ℓ κ} {A : Type ℓ} (P : A → Type κ) : Result A → Type (ℓ ⊔ κ) where
  failed : {why : Error} → Ensures P (err why)
  holds : {value : A} → P value → Ensures P (ok value)

module _ {ℓ κ} {A : Type ℓ} {P : A → Type κ} where
  -- A call that keeps within its fuel returns what it returns.
  pub Ensures-self : {call : Result A} → Ensures P call → Ensures (λ value. call ≡ ok value) call
  Ensures-self failed = failed
  Ensures-self (holds p) = holds refl

  -- both branches of a test keep the postcondition
  pub Ensures-if :
      (test : Bool) {yes no : Result A}
      → (test ≡ true → Ensures P yes)
      → (test ≡ false → Ensures P no)
      → Ensures P (if test then yes else no)
  Ensures-if false on_yes on_no = on_no refl
  Ensures-if true on_yes on_no = on_yes refl

  -- what the next call makes of each value keeps its postcondition
  pub Ensures-bind {ℓ₂ κ₂} :
      {C : Type ℓ₂} {R : C → Type κ₂} {call : Result A} {next : A → Result C}
      → Ensures P call
      → ((value : A) → P value → Ensures R (next value))
      → Ensures R (call >>= next)
  Ensures-bind failed then_next = failed
  Ensures-bind (holds {value} p) then_next = then_next value p

  pub Ensures-out_of_fuel : {call : Result A} → Ensures P call → call ≢ out_of_fuel
  Ensures-out_of_fuel failed = cc
  Ensures-out_of_fuel (holds p) = cc
