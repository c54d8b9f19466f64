-- ===== src/Emission.antt =====
-- cpp/pisecured/include/pisecured/chain_rpc.hpp: the subsidy schedule, the fee shares, the change of
-- unit at height 3000, and the rule for the two paid subsidies. Sums and products are `uint64_t`.
pub mod Shares
pub mod Schedule
mod Examples
use pi_secure.Prelude.{
  ltb, leb, ◌==◌, if◌then◌else◌, ltb→lt, lt→ltb, leb→le, ==_iff, Bool-cases, Option-cases, tests,
  length, get_elem?, set, length-append, length-set, get_elem?-set_self, get_elem?-set_ne, get_or,
  take, drop, replicate, take-append-drop, length-take, length-drop, length-replicate, length-map,
  take-append, drop-append, drop-suc-append, Bytes, codes, u64_mod, u64_max, u32_mod, All,
  All-append, All-append_left, All-append_right, IsByte, bytes_eq, bytes_eq_iff, bytes_eq_refl,
  ◌>>=◌, ◌>>◌, fail_if, is_ok, Result-cases, Reason, Result, ok, err, add64, sub64, mul64, sub_ℕ, ℤ,
  pos, negsuc, ℕ, zero, suc, ◌+◌, ◌-◌, ◌*◌, ◌/◌, ◌%◌, ◌^◌, ◌≤◌, ◌<◌, ◌≡◌, refl, sym, ap, subst, ◌∙◌,
  ◌≢◌, ◌↔◌, ◌⊎◌, inl, inr, Bool, true, false, not, ◌&&◌, ◌||◌, Option, none, some, List, [], ◌∷◌,
  ◌++◌, map, append-nil, append_assoc, arith, dec_lt, ℕ_discrete,
}
use pi_secure.Prelude.Reason.{subsidy_mismatch, validator_amount}

abbrev pub miner216_activation_height : ℕ
miner216_activation_height = 32

abbrev pub legacy_miner_subsidy : ℕ
legacy_miner_subsidy = 198

abbrev pub subsidy_units : ℕ
subsidy_units = 200

abbrev pub subsidy_units_after_activation : ℕ
subsidy_units_after_activation = 218

abbrev pub validator_units : ℕ
validator_units = 2

abbrev pub pi_activation_height : ℕ
pi_activation_height = 3000

abbrev pub pi_per_old_unit : ℕ
pi_per_old_unit = 1000

abbrev pub subsidy_pi : ℕ
subsidy_pi = 218_000

abbrev pub validator_pi : ℕ
validator_pi = 2000

abbrev pub min_fee_pi : ℕ
min_fee_pi = 314

unfoldable pub subsidy_for_height : ℕ → ℕ
subsidy_for_height height =
    if leb pi_activation_height height
    then subsidy_pi
    else if leb miner216_activation_height height
    then subsidy_units_after_activation
    else subsidy_units

unfoldable pub validator_for_height : ℕ → ℕ
validator_for_height height =
    if leb pi_activation_height height then validator_pi else validator_units

unfoldable pub miner_subsidy_for_height : ℕ → ℕ
unfolding subsidy_for_height validator_for_height
miner_subsidy_for_height height = sub64 (subsidy_for_height height) (validator_for_height height)

unfoldable pub min_fee_for_height : ℕ → ℕ
min_fee_for_height height = if leb pi_activation_height height then min_fee_pi else 1

unfoldable pub amount_scale_for_next : ℕ → ℕ
amount_scale_for_next next_height =
    if leb pi_activation_height next_height then pi_per_old_unit else 1

-- `none` is the failure of the source.
unfoldable pub stored_to_pi : ℕ → ℕ → Option ℕ
stored_to_pi stored created_height =
    if leb pi_activation_height created_height
    then some stored
    else if ltb (u64_max / pi_per_old_unit) stored
    then none
    else some (mul64 stored pi_per_old_unit)

pub record FeeShares : Type 0 where
  pub miner : ℕ
  pub stakers : ℕ
  pub loans : ℕ
  pub foundation : ℕ
  pub burn : ℕ

unfoldable pub fee_shares : ℕ → FeeShares
fee_shares fee =
    let miner = mul64 fee 60 / 100 in
    let stakers = mul64 fee 20 / 100 in
    let loans = mul64 fee 8 / 100 in
    let foundation = mul64 fee 7 / 100 in
    record {
      miner = miner;
      stakers = stakers;
      loans = loans;
      foundation = foundation;
      burn = sub64 fee (add64 (add64 (add64 miner stakers) loans) foundation);
    }

-- The last test: below height 32 either of two subsidies is paid, from there on exactly one.
miner_amount_ok : ℕ → ℕ → ℕ → Result (Unit {0})
unfolding miner_subsidy_for_height
miner_amount_ok height share paid_miner =
    let miner_due = add64 (miner_subsidy_for_height height) share in
    let miner_legacy = add64 legacy_miner_subsidy share in
    let miner_full = add64 (subsidy_units_after_activation - validator_units) share in
    if leb miner216_activation_height height
    then (if paid_miner == miner_due then ok tt else err subsidy_mismatch)
    else if not (paid_miner == miner_legacy) && not (paid_miner == miner_full)
    then err subsidy_mismatch
    else ok tt

unfoldable pub coinbase_subsidy_ok : ℕ → ℕ → ℕ → ℕ → Result (Unit {0})
unfolding validator_for_height miner_amount_ok
coinbase_subsidy_ok height fee paid_miner paid_validator =
    let old_unit = paid_miner == 216 || paid_miner == 218 || paid_miner == legacy_miner_subsidy in
    if leb pi_activation_height height && old_unit
    then err subsidy_mismatch
    else if not (paid_validator == validator_for_height height)
    then err validator_amount
    else miner_amount_ok height (fee_shares fee).miner paid_miner
