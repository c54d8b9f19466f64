-- ===== src/Address/Fold.antt =====
-- Folding a name changes neither its length nor whether it is a valid or a reserved name.
use pi_secure.Prelude.{ap₂, ◌==◌, length, Bytes, ℕ, suc, ◌≡◌, refl, ap, true, [], ◌∷◌, arith}
use pi_secure.Address.{
  all_of, is_name_char, is_alpha, lower_char, fold_name, starts_with_letter, valid_shortname,
  is_reserved_name, is_long_address, is_ps1_payout, is_lower_hex_char,
}

lower_char_idem : (c : ℕ) → lower_char (lower_char c) ≡ lower_char c
unfolding lower_char
lower_char_idem c = ground arith

pub fold_name_idem : (s : Bytes) → fold_name (fold_name s) ≡ fold_name s
unfolding fold_name
fold_name_idem [] = refl
fold_name_idem (c ∷ s) = cc (lower_char_idem c, fold_name_idem s)

pub length-fold_name : (s : Bytes) → length (fold_name s) ≡ length s
unfolding fold_name
length-fold_name [] = refl
length-fold_name (c ∷ s) = ap suc (length-fold_name s)

is_name_char_lower : (c : ℕ) → is_name_char (lower_char c) ≡ is_name_char c
unfolding is_name_char lower_char
is_name_char_lower c = ground arith

is_alpha_lower : (c : ℕ) → is_alpha (lower_char c) ≡ is_alpha c
unfolding is_alpha lower_char
is_alpha_lower c = ground arith

all_name_fold : (s : Bytes) → all_of is_name_char (fold_name s) ≡ all_of is_name_char s
unfolding all_of fold_name
all_name_fold [] = refl
all_name_fold (c ∷ s) = rw (is_name_char_lower c, all_name_fold s)

starts_fold : (s : Bytes) → starts_with_letter (fold_name s) ≡ starts_with_letter s
unfolding starts_with_letter fold_name
starts_fold [] = refl
starts_fold (c ∷ s) = is_alpha_lower c

-- A name and its folded form are valid together, and reserved together; folding twice is folding once.
pub fold_name_class :
    (name : Bytes)
    → (fold_name (fold_name name) ≡ fold_name name)
      × (valid_shortname (fold_name name) ≡ valid_shortname name)
      × (is_reserved_name (fold_name name) ≡ is_reserved_name name)
fold_name_class name = (
  fold_name_idem name,
  unfold valid_shortname in rw (length-fold_name name, starts_fold name, all_name_fold name),
  unfold is_reserved_name in rw (fold_name_idem name),
)

fold_name_hex : (s : Bytes) → all_of is_lower_hex_char s ≡ true → fold_name s ≡ s
unfolding all_of is_lower_hex_char fold_name
fold_name_hex [] h = refl
fold_name_hex (c ∷ s) h =
    let e : lower_char c ≡ c = unfold lower_char in ground arith in
    ap₂ ◌∷◌ e (fold_name_hex s (ground arith))

-- Every long address pays out: `is_ps1_payout` accepts it, as it is written.
pub long-ps1 : (a : Bytes) → is_long_address a ≡ true → is_ps1_payout a ≡ true
unfolding is_ps1_payout is_long_address fold_name all_of lower_char
long-ps1 [] h = ground arith
long-ps1 (x ∷ []) h = ground arith
long-ps1 (x ∷ y ∷ []) h = ground arith
long-ps1 (x ∷ y ∷ z ∷ s) h =
    let len : (length (x ∷ y ∷ z ∷ s) == 67) ≡ true = ground arith in
    let len' : (length (fold_name (x ∷ y ∷ z ∷ s)) == 67) ≡ true =
      ground (arith, length-fold_name s) in
    let hex = fold_name_hex s (ground arith) in
    let all : all_of is_lower_hex_char (fold_name s) ≡ true = rw hex (ground arith) in
    let ex : x ≡ 112 = ground arith in
    let ey : y ≡ 115 = ground arith in
    let ez : z ≡ 49 = ground arith in ground (arith, all, length-fold_name s)
