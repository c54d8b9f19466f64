-- ===== src/Flags.antt =====
-- cpp/pisecured/include/pisecured/flags.hpp: the book of flags. A method of `FlagBook` returns the new
-- list of flags, or the reason for which it leaves the book as it is.
pub mod Escrow
pub mod Claims
mod Examples
use pi_secure.Prelude.{
  ltb, leb, ◌==◌, if◌then◌else◌, ltb→lt, lt→ltb, leb→le, ==_iff, Bool-cases, Option-cases, tests,
  length, get_elem?, set, length-append, length-set, get_elem?-set_self, get_elem?-set_ne, get_or,
  take, drop, replicate, take-append-drop, length-take, length-drop, length-replicate, length-map,
  take-append, drop-append, drop-suc-append, Bytes, codes, u64_mod, u64_max, u32_mod, All,
  All-append, All-append_left, All-append_right, IsByte, bytes_eq, bytes_eq_iff, bytes_eq_refl,
  ◌>>=◌, ◌>>◌, fail_if, is_ok, Result-cases, Reason, Result, ok, err, add64, sub64, mul64, sub_ℕ, ℤ,
  pos, negsuc, ℕ, zero, suc, ◌+◌, ◌-◌, ◌*◌, ◌/◌, ◌%◌, ◌^◌, ◌≤◌, ◌<◌, ◌≡◌, refl, sym, ap, ap₂, subst,
  ◌∙◌, ◌≢◌, ◌↔◌, ◌⊎◌, inl, inr, Bool, true, false, not, ◌&&◌, ◌||◌, Option, none, some, List, [],
  ◌∷◌, ◌++◌, map, append-nil, append_assoc, arith, dec_lt, ℕ_discrete,
}
use pi_secure.Prelude.Reason.{
  duplicate_flag, unknown_flag, already_claimed, awards_signature, flag_expired, flag_exhausted,
  unlimited_cannot_pay, malformed_transaction,
}

pub record Flag : Type 0 where
  pub id : Bytes
  pub commitment : Bytes
  pub awards_pubkey : Bytes
  pub max_claims : ℕ
  pub expires_height : ℕ
  pub bounty_units : ℕ
  pub note : Bytes
  pub escrow : ℕ
  pub txid : Bytes
  pub claimants : List Bytes
  pub claim_txids : List Bytes

-- `FlagBook::find`
unfoldable pub find : Bytes → List Flag → Option Flag
find id [] = none
find id (flag ∷ flags) = if bytes_eq flag.id id then some flag else find id flags

is_empty : Bytes → Bool
is_empty [] = true
is_empty (c ∷ s) = false

unfoldable pub escrow_lock : ℕ → ℕ → Result ℕ
escrow_lock max_claims bounty_units =
    if max_claims == 0
    then (if not (bounty_units == 0) then err unlimited_cannot_pay else ok 0)
    else if not (bounty_units == 0) && ltb (u64_max / max_claims) bounty_units
    then err malformed_transaction
    else ok (mul64 bounty_units max_claims)

-- `create` on an id that no flag has.
create_new : List Flag → Flag → Result (List Flag)
create_new flags incoming = elim (escrow_lock incoming.max_claims incoming.bounty_units) [
  | err reason ↦ err reason
  | ok lock ↦ ok (flags ++ (record incoming { escrow = lock } ∷ []))
]

unfoldable pub create : List Flag → Flag → Result (List Flag)
unfolding is_empty create_new
create flags incoming = elim (find incoming.id flags) [
  | some existing ↦
      if not (is_empty incoming.txid) && bytes_eq existing.txid incoming.txid
      then ok flags
      else err duplicate_flag
  | none ↦ create_new flags incoming
]

-- The loop over the claimants: `none` if the recipient is not among them, else whether the claim is
-- the one that is recorded.
seen : Bytes → Bytes → List Bytes → List Bytes → Option Bool
unfolding is_empty
seen recipient txid [] txids = none
seen recipient txid (who ∷ claimants) [] =
    if bytes_eq who recipient then some false else seen recipient txid claimants []
seen recipient txid (who ∷ claimants) (t ∷ txids) =
    if bytes_eq who recipient
    then some (not (is_empty txid) && bytes_eq t txid)
    else seen recipient txid claimants txids

-- What follows the loop.
pub claim_new : Flag → Bytes → Bytes → ℕ → Bytes → Result Flag
claim_new flag recipient awards_pubkey height txid =
    if not (bytes_eq awards_pubkey flag.awards_pubkey)
    then err awards_signature
    else if not (flag.expires_height == 0) && ltb flag.expires_height height
    then err flag_expired
    else if not (flag.max_claims == 0) && leb flag.max_claims (length flag.claimants)
    then err flag_exhausted
    else if ltb flag.escrow flag.bounty_units
    then err flag_exhausted
    else ok (record flag {
      escrow = flag.escrow - flag.bounty_units;
      claimants = flag.claimants ++ (recipient ∷ []);
      claim_txids = flag.claim_txids ++ (txid ∷ []);
    })

pub claim_flag : Flag → Bytes → Bytes → ℕ → Bytes → Result Flag
claim_flag flag recipient awards_pubkey height txid =
    elim (seen recipient txid flag.claimants flag.claim_txids) [
      | some same ↦ if same then ok flag else err already_claimed
      | none ↦ claim_new flag recipient awards_pubkey height txid
    ]

-- `FlagBook::claim`: the first flag with the id is changed in place.
pub claim : List Flag → Bytes → Bytes → Bytes → ℕ → Bytes → Result (List Flag)
claim [] flag_id recipient awards_pubkey height txid = err unknown_flag
claim (flag ∷ flags) flag_id recipient awards_pubkey height txid =
    let rest = claim flags flag_id recipient awards_pubkey height txid in
    if bytes_eq flag.id flag_id
    then (claim_flag flag recipient awards_pubkey height txid >>= λ f. ok (f ∷ flags))
    else (rest >>= λ fs. ok (flag ∷ fs))

contains : Bytes → List Bytes → Bool
contains ps1 [] = false
contains ps1 (who ∷ claimants) = bytes_eq who ps1 || contains ps1 claimants

-- `FlagBook::claimed_by`
pub claimed_by : Bytes → List Flag → List Bytes
unfolding contains
claimed_by ps1 [] = []
claimed_by ps1 (flag ∷ flags) =
    let rest = claimed_by ps1 flags in if contains ps1 flag.claimants then flag.id ∷ rest else rest
