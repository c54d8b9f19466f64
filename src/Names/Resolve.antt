-- ===== src/Names/Resolve.antt =====
-- What `resolve_miner` pays.
use pi_secure.Prelude.{
  ◌==◌, Bool-cases, Option-cases, length, take, Bytes, codes, bytes_eq, ok, ◌≡◌, sym, ◌∙◌, ◌⊎◌, inl,
  inr, true, ◌&&◌, some, List, arith,
}
use pi_secure.Address.{fold_name, is_long_address}
use pi_secure.Names.{
  NameRec, find_folded, find_name, lookup_name, lowered, resolve_name, resolve_miner,
}
use pi_secure.Names.Find.{find_folded_sound}
use pi_secure.Names.Registry.{IsRegistry, found-IsRegistry}

-- The wallet is an address up to case, or a name that is registered for the payout.
abbrev pub Resolves : List NameRec → Bytes → Bytes → Bytes → Type 0
Resolves names wallet shown payout =
    ((shown ≡ payout) × (payout ≡ lowered wallet))
    ⊎ ((rec : NameRec) × (find_name wallet names ≡ some rec)
        × (rec.name ≡ shown)
        × (rec.address ≡ payout)
        × (fold_name shown ≡ fold_name wallet))

resolve_name_sound :
    (names : List NameRec) (wallet shown payout : Bytes)
    → IsRegistry names
    → resolve_name names wallet ≡ ok (shown, payout)
    → (is_long_address payout ≡ true) × Resolves names wallet shown payout
unfolding resolve_name lookup_name find_name
resolve_name_sound names wallet shown payout reg h =
    elim (Option-cases (find_folded (fold_name wallet) names)) [
      | inl e ↦ ground arith
      | inr (rec, e) ↦
          let name : rec.name ≡ shown = ground arith in
          let address : rec.address ≡ payout = ground arith in
          let long = (found-IsRegistry (fold_name wallet) names rec reg e).1 in
          let same = find_folded_sound (fold_name wallet) names rec e in
          (rw address at long, inr (rec, e, name, address, rw name at same))
    ]

-- In a registry whose names are valid and unique up to case, and whose addresses are long and
-- unique, a miner that is resolved is paid at a long address: its own up to case, or the one for
-- which its name is registered.
pub resolve_miner-Resolves :
    (names : List NameRec) (wallet shown payout : Bytes)
    → IsRegistry names
    → resolve_miner names wallet ≡ ok (shown, payout)
    → (is_long_address payout ≡ true) × Resolves names wallet shown payout
unfolding resolve_miner
resolve_miner-Resolves names wallet shown payout reg h =
    elim (Bool-cases (is_long_address (lowered wallet))) [
      | inl long ↦
          elim (Bool-cases
            (length wallet == 67 && bytes_eq (fold_name (take 3 wallet)) (codes "ps1"))) [
              | inl ps1 ↦
                  let at : lowered wallet ≡ payout = ground arith in
                  let name : lowered wallet ≡ shown = ground arith in
                  (rw at at long, inl (sym name ∙ at, sym at))
              | inr other ↦ resolve_name_sound names wallet shown payout reg (ground arith)
            ]
      | inr other ↦ resolve_name_sound names wallet shown payout reg (ground arith)
    ]
