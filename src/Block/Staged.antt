-- ===== src/Block/Staged.antt =====
-- The flags as the transactions of a block leave them.
use pi_secure.Prelude.{
  All, Result-cases, ok, ℕ, ◌+◌, ◌*◌, ◌≤◌, ◌≡◌, refl, ap, subst, inl, inr, Bool, List, [], ◌∷◌,
  ◌++◌, arith,
}
use pi_secure.Tx.{Tx, FlagKind}
use pi_secure.Utxo.{Utxos}
use pi_secure.Flags.{Flag, create, claim}
use pi_secure.Flags.Escrow.{IsFunded, create-IsFunded, claim-IsFunded, total_escrow}
use pi_secure.Hex.{to_hex}
use pi_secure.Block.{Outside, incoming_flag, signer_of, apply_flag_tx, check_tx, check_txs}

ok_inv : (a b : List Flag) → ok a ≡ ok b → a ≡ b
ok_inv a b e = cc

-- What a transaction locks: all the bounties of a flag that it creates.
abbrev pub locked_by : FlagKind → Tx → ℕ
locked_by FlagKind.plain tx = 0
locked_by FlagKind.create tx = tx.bounty_units * tx.max_claims
locked_by FlagKind.claim tx = 0

abbrev pub total_locked : List Tx → ℕ
total_locked [] = 0
total_locked (tx ∷ txs) = locked_by tx.flag_kind tx + total_locked txs

-- Every flag is funded, and the escrow is within what there was and what was locked.
abbrev pub IsStaged : List Flag → ℕ → List Flag → Type 0
IsStaged book locked staged =
    All IsFunded staged × (total_escrow staged ≤ total_escrow book + locked)

applied_kind :
    (k : FlagKind) (book staged : List Flag) (tx : Tx) (h : ℕ)
    → tx.flag_kind ≡ k
    → All IsFunded book
    → apply_flag_tx book tx h ≡ ok staged
    → IsStaged book (locked_by k tx) staged
unfolding apply_flag_tx incoming_flag
applied_kind FlagKind.plain book staged tx h kind funded e =
    let same : ok book ≡ ok staged = rw kind at e in
    subst (λ s. IsStaged book 0 s) (ok_inv book staged same) (funded, omega arith)
applied_kind FlagKind.create book staged tx h kind funded e =
    let made : create book (incoming_flag tx) ≡ ok staged = rw kind at e in
    let (all, change) = create-IsFunded book (incoming_flag tx) staged funded refl refl made in
    (
      all,
      elim change [
        | inl same ↦ omega (arith, ap total_escrow same)
        | inr grown ↦ omega (arith, grown)
      ],
    )
applied_kind FlagKind.claim book staged tx h kind funded e =
    let made : claim book tx.flag_id tx.recipient (signer_of tx.inputs) h (to_hex tx.txid)
        ≡ ok staged =
      rw kind at e in
    let (all, change) =
      claim-IsFunded book tx.flag_id tx.recipient (signer_of tx.inputs) h (to_hex tx.txid) staged
        funded made in
    (
      all,
      elim change [
        | inl (same, again) ↦ omega (arith, ap total_escrow same)
        | inr (f, there, less) ↦ omega (arith, less)
      ],
    )

check_tx_flags :
    (c : Outside) (m : Utxos) (h : ℕ) (local : Bool) (prior : List Tx) (book staged : List Flag)
    (tx : Tx)
    → check_tx c m h local prior book tx ≡ ok staged
    → apply_flag_tx book tx h ≡ ok staged
unfolding check_tx
check_tx_flags c m h local prior book staged tx e = ground arith

-- Let every flag be funded: its escrow is what its bounties cost less what was paid. Then every flag
-- is funded after the accepted transactions of a block, whichever of them create flags or claim
-- them, and the escrow of all flags has grown by at most the bounties of the flags created.
pub check_txs-IsStaged :
    (c : Outside) (m : Utxos) (h : ℕ) (local : Bool) (prior : List Tx) (book staged : List Flag)
    (txs : List Tx)
    → All IsFunded book
    → check_txs c m h local prior book txs ≡ ok staged
    → IsStaged book (total_locked txs) staged
unfolding check_txs
check_txs-IsStaged c m h local prior book staged [] funded e =
    subst (λ s. IsStaged book 0 s) (ok_inv book staged e) (funded, omega arith)
check_txs-IsStaged c m h local prior book staged (tx ∷ txs) funded e =
    elim (Result-cases (check_tx c m h local prior book tx)) [
      | inr (reason, fail) ↦ ground arith
      | inl (next, one) ↦
          let (all, less) =
            applied_kind tx.flag_kind book next tx h refl funded
              (check_tx_flags c m h local prior book next tx one) in
          let (all', less') =
            check_txs-IsStaged c m h local (prior ++ (tx ∷ [])) next staged txs all (rw one at e) in
          (all', omega (arith, less, less'))
    ]
