-- ===== src/Challenge.antt =====
-- cpp/pisecured/src/chain_rpc.cpp: the challenges that block templates carry. The two maps are
-- association lists. RAND_bytes is OpenSSL's: its 32 bytes, or its failure, are the argument `raw`.
pub mod Table
mod Examples
use pi_secure.Prelude.{
  ltb, leb, ◌==◌, if◌then◌else◌, ltb→lt, lt→ltb, leb→le, ==_iff, Bool-cases, Option-cases, tests,
  length, get_elem?, set, length-append, length-set, get_elem?-set_self, get_elem?-set_ne,
  get_elem?-append_left, get_elem?-append_end, get_or, take, drop, replicate, take-append-drop,
  length-take, length-drop, length-replicate, length-map, take-append, drop-append, drop-suc-append,
  Bytes, codes, u64_mod, u64_max, u32_mod, All, All-append, All-append_left, All-append_right,
  IsByte, bytes_eq, bytes_eq_iff, bytes_eq_refl, fail_if, ◌>>=◌, is_ok, ◌>>◌, Result-cases, Reason,
  Result, ok, err, add64, sub64, mul64, sub_ℕ, ℤ, pos, negsuc, ℕ, zero, suc, ◌+◌, ◌-◌, ◌*◌, ◌/◌,
  ◌%◌, ◌^◌, ◌≤◌, ◌<◌, ◌≡◌, refl, sym, ap, ap₂, subst, ◌∙◌, ◌≢◌, ◌↔◌, ◌⊎◌, inl, inr, Bool, true,
  false, not, ◌&&◌, ◌||◌, Option, none, some, List, [], ◌∷◌, ◌++◌, map, append-nil, append_assoc,
  arith, dec_lt, ℕ_discrete,
}
use pi_secure.Hex.{to_hex}

-- `g_challenges` and `g_outstanding`.
pub record Challenges : Type 0 where
  pub issued : List (Bytes × Bytes)
  pub outstanding : List (Bytes × Bytes)

pub find_text : Bytes → List (Bytes × Bytes) → Option Bytes
find_text key [] = none
find_text key ((k, v) ∷ entries) = if bytes_eq k key then some v else find_text key entries

-- `map[key] = value`
pub assign : Bytes → Bytes → List (Bytes × Bytes) → List (Bytes × Bytes)
assign key value [] = (key, value) ∷ []
assign key value ((k, v) ∷ entries) =
    let rest = assign key value entries in
    if bytes_eq k key then (key, value) ∷ entries else (k, v) ∷ rest

-- `key.compare(0, prefix.size(), prefix) == 0`
pub starts_with : Bytes → Bytes → Bool
starts_with [] s = true
starts_with (p ∷ prefix) [] = false
starts_with (p ∷ prefix) (c ∷ s) = p == c && starts_with prefix s

forget_issued : Bytes → List (Bytes × Bytes) → List (Bytes × Bytes)
forget_issued tip [] = []
forget_issued tip ((hex, t) ∷ entries) =
    let rest = forget_issued tip entries in if bytes_eq t tip then rest else (hex, t) ∷ rest

forget_outstanding : Bytes → List (Bytes × Bytes) → List (Bytes × Bytes)
forget_outstanding prefix [] = []
forget_outstanding prefix ((key, hex) ∷ entries) =
    let rest = forget_outstanding prefix entries in
    if starts_with prefix key then rest else (key, hex) ∷ rest

-- `forget_tip_locked`
pub forget_tip : Bytes → Challenges → Challenges
forget_tip tip s = record {
  issued = forget_issued tip s.issued;
  outstanding = forget_outstanding (tip ++ (b'|' ∷ [])) s.outstanding;
}

pub template_key : Bytes → Bytes → Bytes → Bytes
template_key tip merkle miner = tip ++ (b'|' ∷ (merkle ++ (b'|' ∷ miner)))

-- The new state and the challenge, which is empty when there are no random bytes.
pub challenge_for_template : Challenges → Option Bytes → Bytes → Bytes → Bytes → Challenges × Bytes
challenge_for_template s raw tip merkle miner =
    elim (find_text (template_key tip merkle miner) s.outstanding) [
      | some hex ↦ (s, hex)
      | none ↦ elim raw [
        | none ↦ (s, [])
        | some r ↦ (
          record {
            issued = assign (to_hex r) tip s.issued;
            outstanding = assign (template_key tip merkle miner) (to_hex r) s.outstanding;
          },
          to_hex r,
        )
      ]
    ]

pub challenge_was_issued : Challenges → Bytes → Bytes → Bool
challenge_was_issued s hex tip = elim (find_text hex s.issued) [
  | none ↦ false
  | some t ↦ bytes_eq t tip
]

pub retire_challenge : Challenges → Bytes → Challenges
retire_challenge s hex = elim (find_text hex s.issued) [ none ↦ s | some tip ↦ forget_tip tip s ]
