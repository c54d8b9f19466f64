-- ===== src/Flags/Examples.antt =====
-- A flag of two claims is created and claimed, as in flags_test.cpp, and instances of the theorems.
use pi_secure.Prelude.{
  codes, u64_mod, All, bytes_eq, ok, err, ℕ, ◌+◌, ◌*◌, ◌<◌, ◌≡◌, refl, ◌⊎◌, inl, inr, some, [], ◌∷◌,
  arith,
}
use pi_secure.Prelude.Reason.{already_claimed}
use pi_secure.Flags.{
  Flag, create, create_new, escrow_lock, claim, claim_flag, claim_new, find, seen,
}
use pi_secure.Flags.Escrow.{
  IsFunded, total_escrow, escrow_lock_sound, create-IsFunded, claim-IsFunded, IsClaim,
}
use pi_secure.Flags.Claims.{claim_once}

abbrev fresh : Flag
fresh = record {
  id = codes "flag";
  commitment = [];
  awards_pubkey = codes "key";
  max_claims = 2;
  expires_height = 0;
  bounty_units = 500;
  note = [];
  escrow = 0;
  txid = codes "t0";
  claimants = [];
  claim_txids = [];
}

abbrev open_flag : Flag
open_flag = record fresh { escrow = 1000 }

abbrev claimed : Flag
claimed = record fresh { escrow = 500; claimants = codes "ada" ∷ []; claim_txids = codes "t1" ∷ [] }

created : create [] fresh ≡ ok (open_flag ∷ [])
unfolding create create_new find escrow_lock
created = refl

first_claim :
    claim (open_flag ∷ []) (codes "flag") (codes "ada") (codes "key") 10 (codes "t1")
    ≡ ok (claimed ∷ [])
unfolding claim claim_flag claim_new seen bytes_eq
first_claim = refl

lock : escrow_lock 2 500 ≡ ok 1000
unfolding escrow_lock
lock = refl

escrow_lock_sound_example : (1000 ≡ 500 * 2) × (1000 < u64_mod) × ((0 < 2) ⊎ (Path ℕ 500 0))
escrow_lock_sound_example = escrow_lock_sound 2 500 1000 lock

new_flag-IsFunded :
    All IsFunded (open_flag ∷ [])
    × ((open_flag ∷ [] ≡ []) ⊎ (total_escrow (open_flag ∷ []) ≡ total_escrow [] + 500 * 2))
new_flag-IsFunded = create-IsFunded [] fresh (open_flag ∷ []) tt refl refl created

open_flag-IsFunded : IsFunded open_flag
open_flag-IsFunded = record {
  account = omega arith;
  unpaid = inl (omega arith);
  limited = inr (omega arith);
  recorded = refl;
}

claim-IsFunded_example :
    All IsFunded (claimed ∷ [])
    × (((claimed ∷ [] ≡ open_flag ∷ [])
          × ((f : Flag) × ((find (codes "flag") (open_flag ∷ []) ≡ some f)
                × IsClaim f (codes "ada") (codes "t1"))))
        ⊎ ((f : Flag) × (find (codes "flag") (open_flag ∷ []) ≡ some f)
            × (total_escrow (claimed ∷ []) + f.bounty_units ≡ total_escrow (open_flag ∷ []))))
claim-IsFunded_example =
    claim-IsFunded (open_flag ∷ []) (codes "flag") (codes "ada") (codes "key") 10 (codes "t1")
      (claimed ∷ []) (open_flag-IsFunded, tt) first_claim

claim_once_example :
    (claim (claimed ∷ []) (codes "flag") (codes "ada") [] 90 (codes "t1") ≡ ok (claimed ∷ []))
    × (claim (claimed ∷ []) (codes "flag") (codes "ada") [] 90 (codes "t2") ≡ err already_claimed)
claim_once_example =
    claim_once (open_flag ∷ []) (codes "flag") (codes "ada") (codes "key") 10 (codes "t1")
      (claimed ∷ []) (refl, tt) (λ e. cc) first_claim [] 90 (codes "t2") (λ e. ground arith)
