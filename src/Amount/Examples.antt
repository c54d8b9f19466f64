-- ===== src/Amount/Examples.antt =====
-- Runs of the code in amount.hpp, as in pi_amount_test.cpp, and instances of its theorems.
use pi_secure.Prelude.{◌≡◌, refl, codes, ok, err}
use pi_secure.Prelude.Reason.{too_many_decimals}
use pi_secure.Amount.{parse_314st_pi, format_314st_pi}
use pi_secure.Prelude.{Bytes, u64_max, ◌<◌, ◌≤◌, arith, inr}
use pi_secure.Amount.Decimal.{IsAmount, in_pi}
use pi_secure.Amount.Parse.{parse_sound, parse_complete}
use pi_secure.Amount.Format.{parse-format}

six_decimals : parse_314st_pi (codes "0.216000") ≡ ok 216000
unfolding parse_314st_pi
six_decimals = refl

few_decimals : parse_314st_pi (codes "2.35") ≡ ok 2350000
unfolding parse_314st_pi
few_decimals = refl

seven_decimals : parse_314st_pi (codes "0.0003141") ≡ err too_many_decimals
unfolding parse_314st_pi
seven_decimals = refl

shown : format_314st_pi 2000 ≡ codes "0.002000"
unfolding format_314st_pi
shown = refl

parse_sound_example :
    (whole frac : Bytes) × IsAmount (codes "2.35") whole frac
    × (2_350_000 ≡ in_pi whole frac)
    × (0 < 2_350_000)
    × (2_350_000 ≤ u64_max)
parse_sound_example = parse_sound (codes "2.35") 2_350_000 few_decimals

two_and_a_bit : IsAmount (codes "2.35") (codes "2") (codes "35")
two_and_a_bit = record {
  spelled = inr (refl, λ e. cc);
  has_whole = λ e. cc;
  whole_digits = ((omega arith, omega arith), tt);
  frac_digits = ((omega arith, omega arith), ((omega arith, omega arith), tt));
  six = omega arith;
}

parse_complete_example : parse_314st_pi (codes "2.35") ≡ ok (in_pi (codes "2") (codes "35"))
parse_complete_example =
    parse_complete (codes "2.35") (codes "2") (codes "35") two_and_a_bit (omega arith) (omega arith)

parse-format_example : parse_314st_pi (format_314st_pi 216_000) ≡ ok 216_000
parse-format_example = parse-format 216_000 (omega arith) (omega arith)
