-- ===== src/Amount/Format.antt =====
-- What `format_314st_pi` prints, and that `parse_314st_pi` reads it back.
use mathlib.Core.List.{cons-ne-nil}
use native.Mathlib.Nat.{pow-suc}
use pi_secure.Prelude.{
  sym, ◌∙◌, ap, ltb→lt, ltb, ltb→lt, Bool-cases, length, Bytes, u64_max, All, ok, ℕ, zero, suc, ◌+◌,
  ◌-◌, ◌*◌, ◌/◌, ◌%◌, ◌^◌, ◌≤◌, ◌<◌, ◌≡◌, refl, ap, ◌∙◌, ◌≢◌, inl, inr, [], ◌∷◌, arith,
}
use pi_secure.Amount.{
  pi_per_314st, put_digits, to_decimal, zero_padded, format_314st_pi, parse_314st_pi,
}
use pi_secure.Amount.Decimal.{IsDigit, value, IsAmount, in_pi}
use pi_secure.Amount.Parse.{parse_complete}

put_digits_lem :
    (fuel n : ℕ) (out : Bytes)
    → n < fuel
    → All IsDigit out
    → All IsDigit (put_digits fuel n out)
      × (value 0 (put_digits fuel n out) ≡ value n out)
      × (put_digits fuel n out ≢ [])
unfolding put_digits
put_digits_lem zero n out h d = absurd (omega arith)
put_digits_lem (suc fuel) n out h d =
    let low = b'0' + n % 10 in
    let whole : n / 10 * 10 + (low - b'0') ≡ n = omega arith in
    let last : 0 * 10 + (b'0' + n - b'0') ≡ n = omega arith in
    let e : value (n / 10) (low ∷ out) ≡ value n out = ap (λ m. value m out) whole in
    let e' : value 0 ((b'0' + n) ∷ out) ≡ value n out = ap (λ m. value m out) last in
    elim (Bool-cases (ltb n 10)) [
      | inl small ↦ let lt = ltb→lt n 10 small in rw small ((omega arith, d), e', cons-ne-nil _ _)
      | inr large ↦
          let (ds, v, ne) =
            put_digits_lem fuel (n / 10) (low ∷ out) (ground arith) (omega arith, d) in
          rw large (ds, v ∙ e, ne)
    ]

zero_padded_lem :
    (width n : ℕ) (out : Bytes)
    → n < 10 ^ width
    → All IsDigit out
    → All IsDigit (zero_padded width n out)
      × (value 0 (zero_padded width n out) ≡ value n out)
      × (length (zero_padded width n out) ≡ width + length out)
unfolding zero_padded
zero_padded_lem zero n out h d = let e : n ≡ 0 = omega arith in (d, rw e, omega arith)
zero_padded_lem (suc width) n out h d =
    let low = b'0' + n % 10 in
    let whole : n / 10 * 10 + (low - b'0') ≡ n = omega arith in
    let e : value (n / 10) (low ∷ out) ≡ value n out = ap (λ m. value m out) whole in
    let room : n < 10 ^ width * 10 = rw (← pow-suc 10 width) h in
    let (ds, v, len) = zero_padded_lem width (n / 10) (low ∷ out) (omega arith) (omega arith, d) in
    (ds, v ∙ e, omega (arith, len))

-- The print of an amount is a decimal with six places, and its value is the amount.
pub format-IsAmount :
    (pi : ℕ)
    → (whole frac : Bytes) × IsAmount (format_314st_pi pi) whole frac
      × (in_pi whole frac ≡ pi)
      × (length frac ≡ 6)
unfolding format_314st_pi
format-IsAmount pi =
    let (dw, vw, nw) =
      put_digits_lem (suc (pi / pi_per_314st)) (pi / pi_per_314st) [] (omega arith) tt in
    let (df, vf, len) = zero_padded_lem 6 (pi % pi_per_314st) [] (omega arith) tt in
    (
      to_decimal (pi / pi_per_314st),
      zero_padded 6 (pi % pi_per_314st) [],
      record {
        spelled = inr (refl, λ e. cc);
        has_whole = nw;
        whole_digits = dw;
        frac_digits = df;
        six = omega (arith, len);
      },
      omega (arith, vw, vf),
      len,
    )

-- An amount above zero that fits in 64 bits is read back from its print.
pub parse-format : (pi : ℕ) → 0 < pi → pi ≤ u64_max → parse_314st_pi (format_314st_pi pi) ≡ ok pi
parse-format pi pos fits =
    let (whole, frac, is_amount, exact, six) = format-IsAmount pi in
    rw exact at
      (parse_complete (format_314st_pi pi) whole frac is_amount (rw exact pos) (rw exact fits))

-- Different numbers have different decimal texts.
pub to_decimal-injective : (m n : ℕ) → to_decimal m ≡ to_decimal n → m ≡ n
unfolding to_decimal
to_decimal-injective m n h =
    let (_, vm, _) = put_digits_lem (suc m) m [] (omega arith) tt in
    let (_, vn, _) = put_digits_lem (suc n) n [] (omega arith) tt in sym vm ∙ ap (value 0) h ∙ vn
