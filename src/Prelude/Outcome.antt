-- ===== src/Prelude/Outcome.antt =====
-- Fallible code: a function that returns `false` and fills `reason` returns `err`. One constructor
-- for each text that the modelled code puts into `reason`.
use mathlib.Core.Path.{◌≡◌, refl}
use mathlib.Core.Logic.{◌⊎◌, inl, inr}
use mathlib.Core.Bool.{Bool, true, false}

pub data Reason : Type 0 where
  -- amount.hpp
  amount_format too_many_decimals amount_overflow amount_zero : Reason
  -- chain_rpc.hpp, chain_rpc.cpp
  fee_too_low output_invalid not_old_unit malformed_transaction : Reason
  subsidy_mismatch validator_amount exceeds_emission foundation_address : Reason
  validator_address coinbase_missing coinbase_wallet : Reason
  inputs_missing unknown_input insufficient_funds : Reason
  name_invalid name_taken signer_mismatch name_reserved : Reason
  wallet_required unknown_shortname : Reason
  no_spending_key signature_missing key_mismatch signature_invalid : Reason
  -- flags.hpp
  duplicate_flag unknown_flag already_claimed awards_signature : Reason
  flag_expired flag_exhausted unlimited_cannot_pay : Reason

pub data Result {ℓ} (A : Type ℓ) : Type ℓ where
  ok : A → Result A
  err : Reason → Result A

-- An early `return false` under the test.
abbrev pub fail_if : Bool → Reason → Result (Unit {0})
fail_if true e = err e
fail_if false e = ok tt

-- A failed step ends the function with its reason.
infixl 5 ◌>>=◌
abbrev pub ◌>>=◌ {ℓ κ} : {A : Type ℓ} {B : Type κ} → Result A → (A → Result B) → Result B
(err reason) >>= next = err reason
(ok a) >>= next = next a

abbrev pub is_ok {ℓ} : {A : Type ℓ} → Result A → Bool
is_ok (ok a) = true
is_ok (err e) = false

infixl 5 ◌>>◌
abbrev pub ◌>>◌ {ℓ} : {B : Type ℓ} → Result (Unit {0}) → Result B → Result B
test >> rest = test >>= λ _. rest

pub Result-cases {ℓ} :
    {A : Type ℓ} (r : Result A) → ((a : A) × (r ≡ ok a)) ⊎ ((e : Reason) × (r ≡ err e))
Result-cases (ok a) = inl (a, refl)
Result-cases (err e) = inr (e, refl)
