-- ===== src/Tx/Canonical.antt =====
-- The canonical bytes determine what a transaction spends and pays.
use pi_secure.Prelude.{
  if◌then◌else◌, length, Bytes, codes, u64_mod, u32_mod, All, ℕ, ◌^◌, ◌<◌, ◌≡◌, refl, ap₂, Bool,
  List, [], ◌∷◌, ◌++◌, map, append_assoc, arith,
}
use pi_secure.Tx.{
  TxIn, TxOut, Tx, text_bytes, input_bytes, output_bytes, flag_bytes, reg_bytes, tail_bytes,
  canonical_tx,
}
use pi_secure.Tx.Fields.{
  cons_cancel, append_cancel, u16_cancel, u32_cancel, u64_cancel, u16_bytes, u32_bytes, u64_bytes,
}

-- The ranges of the fields' types, and the length of the two-byte length.
abbrev pub FitsIn : TxIn → Type 0
FitsIn i = (length i.prev ≡ 32) × (i.vout < u32_mod)

abbrev pub FitsOut : TxOut → Type 0
FitsOut o = (o.value < u64_mod) × (length o.address < 2 ^ 16)

pub record Fits (tx : Tx) : Type 0 where
  pub version_fits : tx.version < u32_mod
  pub height_fits : tx.height < u32_mod
  pub fee_fits : tx.fee < u64_mod
  pub few_inputs : length tx.inputs < u32_mod
  pub few_outputs : length tx.outputs < u32_mod
  pub inputs_fit : All FitsIn tx.inputs
  pub outputs_fit : All FitsOut tx.outputs

abbrev pub outpoint : TxIn → Bytes × ℕ
outpoint i = (i.prev, i.vout)

inputs_cancel :
    (is js : List TxIn) (x y : Bytes)
    → length is ≡ length js
    → All FitsIn is
    → All FitsIn js
    → input_bytes is ++ x ≡ input_bytes js ++ y
    → (map outpoint is ≡ map outpoint js) × (x ≡ y)
unfolding input_bytes
inputs_cancel [] [] x y len hi hj h = (refl, h)
inputs_cancel [] (j ∷ js) x y len hi hj h = absurd (omega arith)
inputs_cancel (i ∷ is) [] x y len hi hj h = absurd (omega arith)
inputs_cancel (i ∷ is) (j ∷ js) x y len ((pi, vi), hi) ((pj, vj), hj) h =
    let h' : i.prev ++ (u32_bytes i.vout ++ (input_bytes is ++ x))
        ≡ j.prev ++ (u32_bytes j.vout ++ (input_bytes js ++ y)) =
      simp append_assoc at h in
    let (prev, h1) = append_cancel i.prev j.prev _ _ (omega arith) h' in
    let (vout, h2) = u32_cancel i.vout j.vout _ _ vi vj h1 in
    let (rest, h3) = inputs_cancel is js x y (omega arith) hi hj h2 in
    (ap₂ ◌∷◌ (λ k. (prev k, vout k)) rest, h3)

text_cancel :
    (s t x y : Bytes)
    → length s < 2 ^ 16
    → length t < 2 ^ 16
    → text_bytes s ++ x ≡ text_bytes t ++ y
    → (s ≡ t) × (x ≡ y)
unfolding text_bytes
text_cancel s t x y hs ht h =
    let h' : u16_bytes (length s) ++ (s ++ x) ≡ u16_bytes (length t) ++ (t ++ y) =
      simp append_assoc at h in
    let (len, h1) = u16_cancel (length s) (length t) _ _ hs ht h' in append_cancel s t x y len h1

outputs_cancel :
    (os ps : List TxOut) (x y : Bytes)
    → length os ≡ length ps
    → All FitsOut os
    → All FitsOut ps
    → output_bytes os ++ x ≡ output_bytes ps ++ y
    → (os ≡ ps) × (x ≡ y)
unfolding output_bytes
outputs_cancel [] [] x y len ho hp h = (refl, h)
outputs_cancel [] (p ∷ ps) x y len ho hp h = absurd (omega arith)
outputs_cancel (o ∷ os) [] x y len ho hp h = absurd (omega arith)
outputs_cancel (o ∷ os) (p ∷ ps) x y len ((vo, lo), ho) ((vp, lp), hp) h =
    let h' : u64_bytes o.value ++ (text_bytes o.address ++ (output_bytes os ++ x))
        ≡ u64_bytes p.value ++ (text_bytes p.address ++ (output_bytes ps ++ y)) =
      simp append_assoc at h in
    let (value, h1) = u64_cancel o.value p.value _ _ vo vp h' in
    let (address, h2) = text_cancel o.address p.address _ _ lo lp h1 in
    let (rest, h3) = outputs_cancel os ps x y (omega arith) ho hp h2 in
    (ap₂ ◌∷◌ (λ k. record { value = value k; address = address k }) rest, h3)

coin_byte : (a b : Bool) → ◌≡◌ {A = ℕ} (if a then 1 else 0) (if b then 1 else 0) → a ≡ b
coin_byte a b h = ground arith

coin_height : (t : Tx) → t.height < u32_mod → (if t.coinbase then t.height else 0) < u32_mod
coin_height t h = ground arith

-- Let two transactions have numbers within their fields, ids of 32 bytes in their inputs, fewer than
-- 2^32 inputs and outputs, and output addresses shorter than 2^16 bytes, which is what the two bytes
-- of their length can say. If they have the same canonical bytes, they have the same version, spend
-- the same outpoints in the same order, pay the same outputs and the same fee, are both coinbases or
-- neither, coinbases of one height, and have the same flag and register bytes.
pub canonical_tx-injective :
    (t u : Tx)
    → Fits t
    → Fits u
    → canonical_tx t ≡ canonical_tx u
    → (t.version ≡ u.version)
      × (t.coinbase ≡ u.coinbase)
      × (map outpoint t.inputs ≡ map outpoint u.inputs)
      × (t.outputs ≡ u.outputs)
      × (t.fee ≡ u.fee)
      × ((if t.coinbase then t.height else 0) ≡ (if u.coinbase then u.height else 0))
      × (flag_bytes t.flag_kind t ++ reg_bytes t.reg t
          ≡ flag_bytes u.flag_kind u ++ reg_bytes u.reg u)
unfolding canonical_tx tail_bytes
canonical_tx-injective t u ft fu h =
    let (_, h0) = append_cancel (codes "TX1") (codes "TX1") _ _ refl h in
    let (version, h1) = u32_cancel t.version u.version _ _ ft.version_fits fu.version_fits h0 in
    let (coin, h2) = cons_cancel _ _ _ _ h1 in
    let (n_in, h3) =
      u32_cancel (length t.inputs) (length u.inputs) _ _ ft.few_inputs fu.few_inputs h2 in
    let (spent, h4) = inputs_cancel t.inputs u.inputs _ _ n_in ft.inputs_fit fu.inputs_fit h3 in
    let (n_out, h5) =
      u32_cancel (length t.outputs) (length u.outputs) _ _ ft.few_outputs fu.few_outputs h4 in
    let (paid, h6) =
      outputs_cancel t.outputs u.outputs _ _ n_out ft.outputs_fit fu.outputs_fit h5 in
    let (fee, h7) = u64_cancel t.fee u.fee _ _ ft.fee_fits fu.fee_fits h6 in
    let (height, h8) =
      u32_cancel _ _ _ _ (coin_height t ft.height_fits) (coin_height u fu.height_fits) h7 in
    (version, coin_byte t.coinbase u.coinbase coin, spent, paid, fee, height, h8)
