-- ===== src/Spend/Sequential.antt =====
-- Checking against the set before the block, and against the set as it is updated.
use pi_secure.Prelude.{
  ◌==◌, if◌then◌else◌, ==_iff, Bool-cases, Option-cases, get_elem?, Bytes, All, bytes_eq,
  bytes_eq_iff, Result-cases, ok, ℕ, zero, suc, ◌+◌, ◌<◌, ◌≡◌, refl, sym, ap, subst, ◌∙◌, inl, inr,
  true, false, Option, none, some, List, [], ◌∷◌, map, arith,
}
use pi_secure.Tx.{Tx, TxIn, TxOut}
use pi_secure.Hex.RoundTrip.{IsHash}
use pi_secure.Utxo.{UtxoRecord, Utxos, utxo_key, utxo_lookup, lookup, credit_key}
use pi_secure.Utxo.Key.{utxo_key-injective}
use pi_secure.Utxo.Apply.{
  credited, is_spent, AllNew, or_else, lookup-apply_utxos, apply_utxos_defined,
}
use pi_secure.Spend.{
  Found, find_outpoint, find_prior, credits_from, apply_utxos, spends_outpoint, tx_spends,
  UtxoCredit, tx_credits, spend_of, spent_before, worth_of, sum_inputs, check_spendable,
  add_checked,
}
use pi_secure.Spend.Conserve.{same_txid}

-- The ids of a transaction and of its inputs are 32 bytes.
abbrev pub HasHash : TxIn → Type 0
HasHash i = IsHash i.prev

abbrev pub HasHashes : Tx → Type 0
HasHashes tx = IsHash tx.txid × All HasHash tx.inputs

-- What `find_outpoint` makes of a record of the set.
abbrev pub found_of : ℕ → UtxoRecord → Found
found_of h r = record {
  value = r.value;
  owner = r.address;
  born = if r.height == 0 then h else r.height;
}

-- A record, or else an output of an earlier transaction.
abbrev pub found_or : ℕ → Option UtxoRecord → Option Found → Option Found
found_or h none rest = rest
found_or h (some r) rest = some (found_of h r)

find_found_or :
    (m : Utxos) (prior : List Tx) (h : ℕ) (prev : Bytes) (vout : ℕ)
    → find_outpoint m prior h prev vout
      ≡ found_or h (lookup (utxo_key prev vout) m) (find_prior prev vout h prior)
unfolding find_outpoint utxo_lookup
find_found_or m prior h prev vout = elim (Option-cases (lookup (utxo_key prev vout) m)) [
  | inl e ↦ ground arith
  | inr (r, e) ↦ ground arith
]

abbrev pub record_at : ℕ → Option TxOut → Option UtxoRecord
record_at h none = none
record_at h (some o) = some (record { value = o.value; address = o.address; height = h })

credited_below :
    (txid : Bytes) (h v start : ℕ) (outputs : List TxOut)
    → v < start
    → credited (utxo_key txid v) (credits_from txid h start outputs) ≡ none
unfolding credits_from
credited_below txid h v start [] below = refl
credited_below txid h v start (o ∷ outputs) below =
    let ih = credited_below txid h v (start + 1) outputs (omega arith) in
    elim (Bool-cases (bytes_eq (utxo_key txid start) (utxo_key txid v))) [
      | inr other ↦ rw (ih, other) refl
      | inl same ↦
          let e =
            same_txid txid start v
              ((bytes_eq_iff (utxo_key txid start) (utxo_key txid v)).0 same) in
          absurd (omega (arith, e))
    ]

credited_here :
    (txid : Bytes) (h v start k : ℕ) (outputs : List TxOut)
    → v ≡ start + k
    → credited (utxo_key txid v) (credits_from txid h start outputs)
      ≡ record_at h (get_elem? outputs k)
unfolding credits_from
credited_here txid h v start k [] at = refl
credited_here txid h v start zero (o ∷ outputs) at =
    let here : start ≡ v = omega (arith, at) in
    let below = credited_below txid h v (start + 1) outputs (omega (arith, at)) in
    let same : bytes_eq (utxo_key txid start) (utxo_key txid v) ≡ true =
      (bytes_eq_iff (utxo_key txid start) (utxo_key txid v)).1 (ap (utxo_key txid) here) in
    rw (below, same) refl
credited_here txid h v start (suc k) (o ∷ outputs) at =
    let ih = credited_here txid h v (start + 1) k outputs (omega (arith, at)) in
    elim (Bool-cases (bytes_eq (utxo_key txid start) (utxo_key txid v))) [
      | inl same ↦
          let e =
            same_txid txid start v
              ((bytes_eq_iff (utxo_key txid start) (utxo_key txid v)).0 same) in
          absurd (omega (arith, e, at))
      | inr other ↦ elim (Option-cases (get_elem? outputs k)) [
        | inl missing ↦ rw (ih, missing, other) refl
        | inr (x, there) ↦ rw (ih, there) refl
      ]
    ]

credited_elsewhere :
    (txid prev : Bytes) (h v start : ℕ) (outputs : List TxOut)
    → IsHash txid
    → IsHash prev
    → bytes_eq txid prev ≡ false
    → credited (utxo_key prev v) (credits_from txid h start outputs) ≡ none
unfolding credits_from
credited_elsewhere txid prev h v start [] ht hp other = refl
credited_elsewhere txid prev h v start (o ∷ outputs) ht hp other =
    let ih = credited_elsewhere txid prev h v (start + 1) outputs ht hp other in
    elim (Bool-cases (bytes_eq (utxo_key txid start) (utxo_key prev v))) [
      | inr apart ↦ rw (ih, apart) refl
      | inl same ↦
          let (e, _) =
            utxo_key-injective txid prev start v ht hp
              ((bytes_eq_iff (utxo_key txid start) (utxo_key prev v)).0 same) in
          let yes = (bytes_eq_iff txid prev).1 e in cc
    ]

-- Every update succeeds, one after the other.
abbrev pub Applied : ℕ → List Tx → Utxos → Utxos → Type 0
Applied h [] m after = m ≡ after
Applied h (tx ∷ txs) m after =
    (next : Utxos) × ((apply_utxos (tx_spends tx) (tx_credits tx h) m ≡ some next)
      × Applied h txs next after)

credited_new :
    (key : Bytes) (credits : List UtxoCredit) (m : Utxos) (r : UtxoRecord)
    → AllNew credits m
    → lookup key m ≡ some r
    → credited key credits ≡ none
credited_new key [] m r new there = refl
credited_new key (c ∷ credits) m r (one, new) there =
    let ih = credited_new key credits m r new there in
    elim (Bool-cases (bytes_eq (credit_key c) key)) [
      | inr other ↦ rw (ih, other) refl
      | inl same ↦
          let e = (bytes_eq_iff (credit_key c) key).0 same in
          let clash : lookup key m ≡ none = subst (λ k. lookup k m ≡ none) e one in cc
    ]

unspent_key :
    (i : TxIn) (inputs : List TxIn)
    → IsHash i.prev
    → All HasHash inputs
    → spends_outpoint i inputs ≡ false
    → is_spent (utxo_key i.prev i.vout) (map spend_of inputs) ≡ false
unfolding spends_outpoint
unspent_key i [] hash hashes apart = refl
unspent_key i (j ∷ inputs) hash (one, hashes) apart =
    let ih = unspent_key i inputs hash hashes (ground arith) in
    elim (Bool-cases (bytes_eq (utxo_key j.prev j.vout) (utxo_key i.prev i.vout))) [
      | inr other ↦ rw (ih, other) refl
      | inl same ↦
          let (e, v) =
            utxo_key-injective j.prev i.prev j.vout i.vout one hash
              ((bytes_eq_iff (utxo_key j.prev j.vout) (utxo_key i.prev i.vout)).0 same) in
          let p = (bytes_eq_iff j.prev i.prev).1 e in
          let q = (==_iff j.vout i.vout).1 v in ground arith
    ]

-- One update: what an outpoint that it does not spend holds after it.
lookup_after :
    (tx : Tx) (h : ℕ) (m next : Utxos) (i : TxIn)
    → HasHashes tx
    → IsHash i.prev
    → spends_outpoint i tx.inputs ≡ false
    → apply_utxos (tx_spends tx) (tx_credits tx h) m ≡ some next
    → lookup (utxo_key i.prev i.vout) next
      ≡ or_else
          (credited (utxo_key i.prev i.vout) (credits_from tx.txid h 0 tx.outputs))
          (lookup (utxo_key i.prev i.vout) m)
unfolding tx_spends tx_credits
lookup_after tx h m next i (ht, hi) hash apart applied =
    let unspent = unspent_key i tx.inputs hash hi apart in
    let now =
      lookup-apply_utxos (map spend_of tx.inputs) (credits_from tx.txid h 0 tx.outputs) m next
        (utxo_key i.prev i.vout) applied in
    rw (now, unspent) refl

found_at :
    (h : ℕ) (rest : Option Found) (o : TxOut)
    → found_or h (record_at h (some o)) rest
      ≡ some (record { value = o.value; owner = o.address; born = h })
found_at h rest o = elim (Bool-cases (h == 0)) [ inl e ↦ rw e refl | inr e ↦ rw e refl ]

-- What the loop over the earlier transactions finds in the first of them is what its credits hold.
find_prior_step :
    (tx : Tx) (prior : List Tx) (h : ℕ) (prev : Bytes) (vout : ℕ)
    → IsHash tx.txid
    → IsHash prev
    → find_prior prev vout h (tx ∷ prior)
      ≡ found_or h
          (credited (utxo_key prev vout) (credits_from tx.txid h 0 tx.outputs))
          (find_prior prev vout h prior)
unfolding find_prior
find_prior_step tx prior h prev vout ht hp = elim (Bool-cases (bytes_eq tx.txid prev)) [
  | inr other ↦
      let none_ = credited_elsewhere tx.txid prev h vout 0 tx.outputs ht hp other in
      rw (other, none_) refl
  | inl same ↦
      let e = (bytes_eq_iff tx.txid prev).0 same in
      let here =
        subst
          (λ p.
            credited (utxo_key p vout) (credits_from tx.txid h 0 tx.outputs)
            ≡ record_at h (get_elem? tx.outputs vout))
          e (credited_here tx.txid h vout 0 vout tx.outputs (omega arith)) in
      elim (Option-cases (get_elem? tx.outputs vout)) [
        | inl missing ↦ rw (same, here, missing) refl
        | inr (o, there) ↦
            rw (same, here, there) (sym (found_at h (find_prior prev vout h prior) o))
      ]
]

found_or_else :
    (h : ℕ) (c : Option UtxoRecord) (rest : Option Found)
    → found_or h c rest ≡ found_or h (or_else c none) rest
found_or_else h none rest = refl
found_or_else h (some r) rest = refl

-- An update moves an earlier transaction into the set.
found_step :
    (h : ℕ) (c o : Option UtxoRecord) (rest next : Option Found)
    → ((r : UtxoRecord) → o ≡ some r → c ≡ none)
    → rest ≡ found_or h c next
    → found_or h o rest ≡ found_or h (or_else c o) next
found_step h c none rest next new e = e ∙ found_or_else h c next
found_step h c (some r) rest next new e = rw (new r refl) refl

find_step :
    (tx : Tx) (prior : List Tx) (h : ℕ) (m next : Utxos) (i : TxIn)
    → HasHashes tx
    → IsHash i.prev
    → spends_outpoint i tx.inputs ≡ false
    → apply_utxos (tx_spends tx) (tx_credits tx h) m ≡ some next
    → find_outpoint m (tx ∷ prior) h i.prev i.vout ≡ find_outpoint next prior h i.prev i.vout
unfolding tx_credits
find_step tx prior h m next i (ht, hi) hash apart applied =
    let now = lookup_after tx h m next i (ht, hi) hash apart applied in
    let credits = credits_from tx.txid h 0 tx.outputs in
    let (_, new) = (apply_utxos_defined (tx_spends tx) credits m).0 (λ e. cc) in
    let key = utxo_key i.prev i.vout in
    find_found_or m (tx ∷ prior) h i.prev i.vout
    ∙ found_step h (credited key credits) (lookup key m) _ _
        (λ r there. credited_new key credits m r new there)
        (find_prior_step tx prior h i.prev i.vout ht hash)
    ∙ ap (λ o. found_or h o (find_prior i.prev i.vout h prior)) (sym now)
    ∙ sym (find_found_or next prior h i.prev i.vout)

find-Applied :
    (prior : List Tx) (h : ℕ) (m after : Utxos) (i : TxIn)
    → All HasHashes prior
    → IsHash i.prev
    → spent_before i prior ≡ false
    → Applied h prior m after
    → find_outpoint m prior h i.prev i.vout ≡ find_outpoint after [] h i.prev i.vout
unfolding spent_before
find-Applied [] h m after i hashes hash apart e = ap (λ k. find_outpoint k [] h i.prev i.vout) e
find-Applied (tx ∷ prior) h m after i (one, hashes) hash apart (next, (applied, rest)) =
    find_step tx prior h m next i one hash (ground arith) applied
    ∙ find-Applied prior h next after i hashes hash (ground arith) rest

worth_of-Applied :
    (prior : List Tx) (h : ℕ) (m after : Utxos) (i : TxIn) (w : ℕ)
    → All HasHashes prior
    → IsHash i.prev
    → Applied h prior m after
    → worth_of m prior h i ≡ ok w
    → worth_of after [] h i ≡ ok w
unfolding worth_of spent_before
worth_of-Applied prior h m after i w hashes hash applied e =
    elim (Bool-cases (spent_before i prior)) [
      | inl spent ↦ ground arith
      | inr apart ↦
          let same = find-Applied prior h m after i hashes hash apart applied in ground arith
    ]

sum_inputs-Applied :
    (prior : List Tx) (h : ℕ) (m after : Utxos) (inputs : List TxIn) (acc r : ℕ)
    → All HasHashes prior
    → All HasHash inputs
    → Applied h prior m after
    → sum_inputs m prior h inputs acc ≡ ok r
    → sum_inputs after [] h inputs acc ≡ ok r
unfolding sum_inputs add_checked
sum_inputs-Applied prior h m after [] acc r hashes hi applied e = e
sum_inputs-Applied prior h m after (i ∷ inputs) acc r hashes (one, hi) applied e =
    elim (Result-cases (worth_of m prior h i)) [
      | inr (reason, fail) ↦ ground arith
      | inl (w, found) ↦
          let now = worth_of-Applied prior h m after i w hashes one applied found in
          elim (Result-cases (add_checked acc w)) [
            | inr (reason, over) ↦ ground arith
            | inl (total, sums) ↦
                let rest : sum_inputs m prior h inputs total ≡ ok r = rw (found, sums) at e in
                let ih = sum_inputs-Applied prior h m after inputs total r hashes hi applied rest in
                rw (now, sums) ih
          ]
    ]

-- An input is found alike against the set before the block with the earlier transactions, and
-- against the set after them: with one value, owner and height.
pub record IsFoundAlike (m : Utxos) (prior : List Tx) (after : Utxos) (h : ℕ) (i : TxIn)
    : Type 0 where
  pub found : Found
  pub before : find_outpoint m prior h i.prev i.vout ≡ some found
  pub now : find_outpoint after [] h i.prev i.vout ≡ some found

worth_of-IsFoundAlike :
    (prior : List Tx) (h : ℕ) (m after : Utxos) (i : TxIn) (w : ℕ)
    → All HasHashes prior
    → IsHash i.prev
    → Applied h prior m after
    → worth_of m prior h i ≡ ok w
    → IsFoundAlike m prior after h i
unfolding worth_of
worth_of-IsFoundAlike prior h m after i w hashes hash applied e =
    elim (Bool-cases (spent_before i prior)) [
      | inl spent ↦ ground arith
      | inr apart ↦ elim (Option-cases (find_outpoint m prior h i.prev i.vout)) [
        | inl missing ↦ ground arith
        | inr (f, there) ↦
            let same = find-Applied prior h m after i hashes hash apart applied in
            record { found = f; before = there; now = sym same ∙ there }
      ]
    ]

sum_inputs-IsFoundAlike :
    (prior : List Tx) (h : ℕ) (m after : Utxos) (inputs : List TxIn) (acc r : ℕ)
    → All HasHashes prior
    → All HasHash inputs
    → Applied h prior m after
    → sum_inputs m prior h inputs acc ≡ ok r
    → All (IsFoundAlike m prior after h) inputs
unfolding sum_inputs add_checked
sum_inputs-IsFoundAlike prior h m after [] acc r hashes hi applied e = tt
sum_inputs-IsFoundAlike prior h m after (i ∷ inputs) acc r hashes (one, hi) applied e =
    elim (Result-cases (worth_of m prior h i)) [
      | inr (reason, fail) ↦ ground arith
      | inl (w, found) ↦ elim (Result-cases (add_checked acc w)) [
        | inr (reason, over) ↦ ground arith
        | inl (total, sums) ↦
            let rest : sum_inputs m prior h inputs total ≡ ok r = rw (found, sums) at e in
            (
              worth_of-IsFoundAlike prior h m after i w hashes one applied found,
              sum_inputs-IsFoundAlike prior h m after inputs total r hashes hi applied rest,
            )
      ]
    ]

-- Let the ids be 32 bytes, and let the updates of the earlier transactions of a block succeed. A
-- transaction that is accepted against the set before the block and the earlier transactions is
-- accepted against the set as they leave it, and it finds each of its inputs in both with the same
-- value, owner and height.
pub check_spendable-Applied :
    (prior : List Tx) (h : ℕ) (m after : Utxos) (tx : Tx) (release : ℕ)
    → All HasHashes prior
    → All HasHash tx.inputs
    → Applied h prior m after
    → check_spendable m tx h prior release ≡ ok tt
    → (check_spendable after tx h [] release ≡ ok tt) × All (IsFoundAlike m prior after h) tx.inputs
unfolding check_spendable
check_spendable-Applied prior h m after tx release hashes hi applied e =
    elim (Result-cases (sum_inputs m prior h tx.inputs 0)) [
      | inr (reason, fail) ↦ ground arith
      | inl (total, sums) ↦
          let now = sum_inputs-Applied prior h m after tx.inputs 0 total hashes hi applied sums in
          (
            ground arith,
            sum_inputs-IsFoundAlike prior h m after tx.inputs 0 total hashes hi applied sums,
          )
    ]
