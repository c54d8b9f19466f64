-- ===== src/Amount/Parse.antt =====
-- `parse_314st_pi` reads exactly the decimal amounts that fit.
use native.Mathlib.Nat.{pow-suc}
use pi_secure.Prelude.{
  Option, err, Result, if◌then◌else◌, take-append, drop-suc-append, Option-cases, length, take,
  drop, take-append, drop-suc-append, Bytes, u64_max, All, ok, ℕ, zero, suc, ◌+◌, ◌-◌, ◌*◌, ◌^◌,
  ◌≤◌, ◌<◌, ◌≡◌, refl, sym, ◌≢◌, inl, inr, true, false, ◌&&◌, none, some, [], ◌∷◌, ◌++◌, arith,
}
use pi_secure.Prelude.Reason.{amount_format}
use pi_secure.Amount.{
  has_second_dot, parse_at, find_char, is_digit, all_amount_chars, accumulate, scale_up, combine,
  parse_parts, is_empty, parse_314st_pi,
}
use pi_secure.Amount.Decimal.{IsDigit, value, IsAmount, in_pi, value-le}

accumulate_sound :
    (s : Bytes) (n r : ℕ)
    → All IsDigit s
    → n ≤ u64_max
    → accumulate s n ≡ some r
    → (r ≡ value n s) × (r ≤ u64_max)
unfolding accumulate
accumulate_sound [] n r d fits h = ground arith
accumulate_sound (c ∷ s) n r (dc, ds) fits h =
    ground (arith, accumulate_sound s (n * 10 + (c - b'0')) r ds)

accumulate_complete :
    (s : Bytes) (n : ℕ) → All IsDigit s → value n s ≤ u64_max → accumulate s n ≡ some (value n s)
unfolding accumulate
accumulate_complete [] n d fits = refl
accumulate_complete (c ∷ s) n (dc, ds) fits =
    let m = n * 10 + (c - b'0') in ground (arith, accumulate_complete s m ds fits, value-le m s)

scale_up_sound :
    (k n r : ℕ) → n ≤ u64_max → scale_up k n ≡ some r → (r ≡ n * 10 ^ k) × (r ≤ u64_max)
unfolding scale_up
scale_up_sound zero n r fits h = ground arith
scale_up_sound (suc k) n r fits h = rw (pow-suc 10 k) (ground (arith, scale_up_sound k (n * 10) r))

one_le_pow : (k : ℕ) → 1 ≤ 10 ^ k
one_le_pow zero = omega arith
one_le_pow (suc k) = rw (pow-suc 10 k) (omega (arith, one_le_pow k))

scale_up_complete : (k n : ℕ) → n * 10 ^ k ≤ u64_max → scale_up k n ≡ some (n * 10 ^ k)
unfolding scale_up
scale_up_complete zero n fits = ground arith
scale_up_complete (suc k) n fits =
    let e : n * 10 ^ suc k ≡ n * 10 * 10 ^ k = rw (pow-suc 10 k) (omega arith) in
    let room : n * 10 ≤ n * 10 * 10 ^ k = grind (arith, one_le_pow k) in
    let small : n * 10 ≤ u64_max = omega (arith, e) in
    let ih = scale_up_complete k (n * 10) (omega (arith, e)) in rw e (ground (arith, small, ih))

find_char-none : (c : ℕ) (s : Bytes) → find_char c s ≡ none → All (λ b. b ≢ c) s
unfolding find_char
find_char-none c [] h = tt
find_char-none c (b ∷ s) h = ground (arith, find_char-none c s)

find_char-some :
    (c : ℕ) (s : Bytes) (i : ℕ)
    → find_char c s ≡ some i
    → (s ≡ take i s ++ (c ∷ drop (suc i) s)) × All (λ b. b ≢ c) (take i s)
unfolding find_char
find_char-some c [] i h = cc
find_char-some c (b ∷ s) zero h = ground arith
find_char-some c (b ∷ s) (suc i) h = ground (arith, find_char-some c s i)

find_char-Lacks : (c : ℕ) (s : Bytes) → All (λ b. b ≢ c) s → find_char c s ≡ none
unfolding find_char
find_char-Lacks c [] h = refl
find_char-Lacks c (b ∷ s) (hb, hs) = ground (arith, find_char-Lacks c s hs)

find_char-append :
    (c : ℕ) (w f : Bytes) → All (λ b. b ≢ c) w → find_char c (w ++ (c ∷ f)) ≡ some (length w)
unfolding find_char
find_char-append c [] f h = ground arith
find_char-append c (b ∷ w) f (hb, hw) = ground (arith, find_char-append c w f hw)

digits_of_chars : (s : Bytes) → all_amount_chars s ≡ true → All (λ b. b ≢ b'.') s → All IsDigit s
unfolding all_amount_chars is_digit
digits_of_chars [] h l = tt
digits_of_chars (c ∷ s) h (lc, ls) = ground (arith, digits_of_chars s)

chars_of_digits : (s : Bytes) → All IsDigit s → all_amount_chars s ≡ true
unfolding all_amount_chars is_digit
chars_of_digits [] d = refl
chars_of_digits (c ∷ s) (dc, ds) = ground (arith, chars_of_digits s ds)

Lacks_of_digits : (s : Bytes) → All IsDigit s → All (λ b. b ≢ b'.') s
Lacks_of_digits [] d = tt
Lacks_of_digits (c ∷ s) (dc, ds) = (omega arith, Lacks_of_digits s ds)

all_amount_chars-append :
    (s t : Bytes) → all_amount_chars (s ++ t) ≡ (all_amount_chars s && all_amount_chars t)
unfolding all_amount_chars
all_amount_chars-append [] t = refl
all_amount_chars-append (c ∷ s) t = ground (arith, all_amount_chars-append s t)

ne_nil_of_is_empty : (s : Bytes) → is_empty s ≡ false → s ≢ []
unfolding is_empty
ne_nil_of_is_empty [] h = cc
ne_nil_of_is_empty (c ∷ s) h = λ e. cc

is_empty_of_ne_nil : (s : Bytes) → s ≢ [] → is_empty s ≡ false
unfolding is_empty
is_empty_of_ne_nil [] h = absurd (h refl)
is_empty_of_ne_nil (c ∷ s) h = refl

is_empty-append : (s : Bytes) (c : ℕ) (t : Bytes) → is_empty (s ++ (c ∷ t)) ≡ false
unfolding is_empty
is_empty-append [] c t = refl
is_empty-append (b ∷ s) c t = refl

-- What `combine` accepts, and its result.
combine_sound :
    (w f pi : ℕ)
    → f ≤ u64_max
    → combine w f ≡ ok pi
    → (pi ≡ w * 1_000_000 + f) × (0 < pi) × (pi ≤ u64_max)
unfolding combine
combine_sound w f pi fits h = ground arith

combine_complete :
    (w f : ℕ)
    → 0 < w * 1_000_000 + f
    → w * 1_000_000 + f ≤ u64_max
    → combine w f ≡ ok (w * 1_000_000 + f)
unfolding combine
combine_complete w f p fits = ground arith

parse_parts_sound :
    (w f : Bytes) (pi : ℕ)
    → All IsDigit w
    → All IsDigit f
    → parse_parts w f ≡ ok pi
    → (length f ≤ 6) × (pi ≡ in_pi w f) × (0 < pi) × (pi ≤ u64_max)
unfolding parse_parts
parse_parts_sound w f pi dw df h = elim (Option-cases (accumulate w 0)) [
  | inl e ↦ ground arith
  | inr (a, ea) ↦ elim (Option-cases (accumulate f 0)) [
    | inl e ↦ ground arith
    | inr (b, eb) ↦ elim (Option-cases (scale_up (6 - length f) b)) [
      | inl e ↦ ground arith
      | inr (c, ec) ↦
          let (wa, la) = accumulate_sound w 0 a dw (omega arith) ea in
          let (fb, lb) = accumulate_sound f 0 b df (omega arith) eb in
          let (bc, lc) = scale_up_sound (6 - length f) b c lb ec in
          let e : value 0 f * 10 ^ (6 - length f) ≡ c = rw (← fb) (sym bc) in
          ground (arith, combine_sound a c pi lc)
    ]
  ]
]

parse_parts_complete :
    (w f : Bytes)
    → All IsDigit w
    → All IsDigit f
    → length f ≤ 6
    → 0 < in_pi w f
    → in_pi w f ≤ u64_max
    → parse_parts w f ≡ ok (in_pi w f)
unfolding parse_parts
parse_parts_complete w f dw df six p fits =
    let k = 6 - length f in
    let scaled : value 0 f ≤ value 0 f * 10 ^ k = grind (arith, one_le_pow k) in
    let wa = accumulate_complete w 0 dw (omega arith) in
    let fa = accumulate_complete f 0 df (omega arith) in
    let sc = scale_up_complete k (value 0 f) (omega arith) in
    let co = combine_complete (value 0 w) (value 0 f * 10 ^ k) p fits in
    ground (arith, wa, fa, sc, co)

at_dot :
    (text : Bytes) (pi i : ℕ)
    → find_char b'.' text ≡ some i
    → all_amount_chars text ≡ true
    → find_char b'.' (drop (suc i) text) ≡ none
    → is_empty (take i text) ≡ false
    → is_empty (drop (suc i) text) ≡ false
    → parse_parts (take i text) (drop (suc i) text) ≡ ok pi
    → (whole frac : Bytes) × IsAmount text whole frac
      × (pi ≡ in_pi whole frac)
      × (0 < pi)
      × (pi ≤ u64_max)
unfolding all_amount_chars
at_dot text pi i e chars one full_w full_f parts =
    let whole = take i text in
    let frac = drop (suc i) text in
    let (spelled, lacks) = find_char-some b'.' text i e in
    let both : all_amount_chars (whole ++ (b'.' ∷ frac)) ≡ true = rw (← spelled) chars in
    let cut : (all_amount_chars whole && all_amount_chars (b'.' ∷ frac)) ≡ true =
      cc (both, all_amount_chars-append whole (b'.' ∷ frac)) in
    let dw = digits_of_chars whole (ground arith) lacks in
    let df = digits_of_chars frac (ground arith) (find_char-none b'.' frac one) in
    let (six, exact, pos, fits) = parse_parts_sound whole frac pi dw df parts in
    (
      whole,
      frac,
      record {
        spelled = inr (spelled, ne_nil_of_is_empty frac full_f);
        has_whole = ne_nil_of_is_empty whole full_w;
        whole_digits = dw;
        frac_digits = df;
        six = six;
      },
      exact,
      pos,
      fits,
    )

-- An accepted text is a decimal amount, and the result is its exact value in pi: it is above zero and
-- fits in 64 bits.
pub parse_sound :
    (text : Bytes) (pi : ℕ)
    → parse_314st_pi text ≡ ok pi
    → (whole frac : Bytes) × IsAmount text whole frac
      × (pi ≡ in_pi whole frac)
      × (0 < pi)
      × (pi ≤ u64_max)
unfolding parse_314st_pi
parse_sound text pi h = elim (Option-cases (find_char b'.' text)) [
  | inl e ↦
      let chars : all_amount_chars text ≡ true = ground arith in
      let full : is_empty text ≡ false = ground arith in
      let parts : parse_parts text [] ≡ ok pi = ground arith in
      let d = digits_of_chars text chars (find_char-none b'.' text e) in
      let (six, exact, pos, fits) = parse_parts_sound text [] pi d tt parts in
      (
        text,
        [],
        record {
          spelled = inl (refl, refl);
          has_whole = ne_nil_of_is_empty text full;
          whole_digits = d;
          frac_digits = tt;
          six = six;
        },
        exact,
        pos,
        fits,
      )
  | inr (i, e) ↦
      let second : find_char b'.' (drop (suc i) text) ≡ none =
        ground (arith, find_char b'.' (drop (suc i) text)) in
      at_dot text pi i e (ground arith) second (ground arith) (ground arith) (ground arith)
]

at_cut :
    (whole frac : Bytes) {r : Result ℕ}
    → find_char b'.' frac ≡ none
    → is_empty whole ≡ false
    → is_empty frac ≡ false
    → parse_parts whole frac ≡ r
    → let text : Bytes = whole ++ (b'.' ∷ frac) in
      let dot : Option ℕ = some (length whole) in
      (if has_second_dot text dot then err amount_format else parse_at text dot) ≡ r
at_cut whole frac once w f h =
    let text : Bytes = whole ++ (b'.' ∷ frac) in
    let cut : parse_at text (some (length whole)) ≡ parse_parts whole frac =
      unfold parse_at in
      rw (take-append whole (b'.' ∷ frac), drop-suc-append whole b'.' frac, w, f) in
    let single : has_second_dot text (some (length whole)) ≡ false =
      unfold has_second_dot in rw (drop-suc-append whole b'.' frac, once) in
    rw (single, cut) h

-- Every decimal amount above zero whose value in pi fits in 64 bits is accepted with that value.
pub parse_complete :
    (text whole frac : Bytes)
    → IsAmount text whole frac
    → 0 < in_pi whole frac
    → in_pi whole frac ≤ u64_max
    → parse_314st_pi text ≡ ok (in_pi whole frac)
unfolding parse_314st_pi
parse_complete text whole frac a p fits = elim a.spelled [
  | inl (et, ef) ↦
      let none_found = find_char-Lacks b'.' whole (Lacks_of_digits whole a.whole_digits) in
      let chars = chars_of_digits whole a.whole_digits in
      let full = is_empty_of_ne_nil whole a.has_whole in
      let parts =
        parse_parts_complete whole [] a.whole_digits tt (omega arith) (rw ef at p)
          (rw ef at fits) in
      rw (et, ef) (rw (none_found, chars, full) parts)
  | inr (et, nf) ↦
      let found = find_char-append b'.' whole frac (Lacks_of_digits whole a.whole_digits) in
      let once = find_char-Lacks b'.' frac (Lacks_of_digits frac a.frac_digits) in
      let chars = chars_of_digits whole a.whole_digits in
      let more = chars_of_digits frac a.frac_digits in
      let both = all_amount_chars-append whole (b'.' ∷ frac) in
      let parts = parse_parts_complete whole frac a.whole_digits a.frac_digits a.six p fits in
      let full : is_empty (whole ++ (b'.' ∷ frac)) ≡ false = is_empty-append whole b'.' frac in
      let all : all_amount_chars (whole ++ (b'.' ∷ frac)) ≡ true =
        unfold all_amount_chars in ground arith in
      let full_w = is_empty_of_ne_nil whole a.has_whole in
      let full_f = is_empty_of_ne_nil frac nf in
      rw (et, full, all, found) (at_cut whole frac once full_w full_f parts)
]
