-- ===== src/Flags/Escrow.antt =====
-- A flag's escrow covers the claims that it still allows.
use native.Mathlib.Nat.{le-div_iff_mul-le}
use pi_secure.Prelude.{
  ltb, ◌==◌, Bool-cases, Option-cases, length, get_elem?, length-append, Bytes, u64_mod, u64_max,
  All, All-append, bytes_eq, bytes_eq_iff, Result-cases, ok, mul64, ℕ, zero, suc, ◌+◌, ◌-◌, ◌*◌,
  ◌/◌, ◌≤◌, ◌<◌, ◌≡◌, ap, ◌∙◌, ◌⊎◌, inl, inr, true, some, List, [], ◌∷◌, ◌++◌, arith,
}
use pi_secure.Flags.{
  Flag, find, escrow_lock, create, create_new, claim, claim_flag, claim_new, seen,
}

-- What was locked is what is left and what was paid, and no more is claimed than was allowed.
-- A flag with no limit pays nothing.
pub record IsFunded (f : Flag) : Type 0 where
  pub account : f.escrow + f.bounty_units * length f.claimants ≡ f.bounty_units * f.max_claims
  pub unpaid : (0 < f.max_claims) ⊎ (f.bounty_units ≡ 0)
  pub limited : (f.max_claims ≡ 0) ⊎ (length f.claimants ≤ f.max_claims)
  pub recorded : length f.claim_txids ≡ length f.claimants

abbrev pub total_escrow : List Flag → ℕ
total_escrow [] = 0
total_escrow (f ∷ fs) = f.escrow + total_escrow fs

-- The lock is the whole of the bounties, without a wrap, and a flag with no limit locks nothing.
pub escrow_lock_sound :
    (max_claims bounty lock : ℕ)
    → escrow_lock max_claims bounty ≡ ok lock
    → (lock ≡ bounty * max_claims) × (lock < u64_mod) × ((0 < max_claims) ⊎ (bounty ≡ 0))
unfolding escrow_lock
escrow_lock_sound zero bounty lock h = ground arith
escrow_lock_sound (suc m) bounty lock h = elim (Bool-cases (bounty == 0)) [
  | inl e ↦ ground arith
  | inr e ↦ elim (Bool-cases (ltb (u64_max / suc m) bounty)) [
    | inl big ↦ ground arith
    | inr small ↦
        let le : bounty ≤ u64_max / suc m = ground arith in
        let fits : bounty * suc m ≤ u64_max =
          (le-div_iff_mul-le {k = suc m} {x = bounty} {y = u64_max} (omega arith)).0 le in
        let lock' : mul64 bounty (suc m) ≡ lock = ground arith in
        (omega arith, omega arith, inl (omega arith))
  ]
]

total_escrow-append :
    (fs gs : List Flag) → total_escrow (fs ++ gs) ≡ total_escrow fs + total_escrow gs
total_escrow-append [] gs = omega arith
total_escrow-append (f ∷ fs) gs = omega (arith, total_escrow-append fs gs)

create_new-IsFunded :
    (flags : List Flag) (incoming : Flag) (book : List Flag)
    → All IsFunded flags
    → incoming.claimants ≡ []
    → incoming.claim_txids ≡ []
    → create_new flags incoming ≡ ok book
    → All IsFunded book
      × (total_escrow book ≡ total_escrow flags + incoming.bounty_units * incoming.max_claims)
unfolding create_new
create_new-IsFunded flags incoming book funded none_yet none_recorded h =
    elim (Result-cases (escrow_lock incoming.max_claims incoming.bounty_units)) [
      | inr (e, fail) ↦ ground arith
      | inl (lock, locked) ↦
          let (exact, fits, unpaid) =
            escrow_lock_sound incoming.max_claims incoming.bounty_units lock locked in
          let added : Flag = record incoming { escrow = lock } in
          let result : flags ++ (added ∷ []) ≡ book = ground arith in
          let len : length incoming.claimants ≡ 0 = ap length none_yet in
          let one : IsFunded added = record {
            account = rw len (omega (arith, exact));
            unpaid = unpaid;
            limited = rw len (inr (omega arith));
            recorded = omega (arith, ap length none_yet, ap length none_recorded);
          } in
          let e = total_escrow-append flags (added ∷ []) in
          rw (← result)
            (All-append IsFunded flags (added ∷ []) funded (one, tt), omega (arith, e, exact))
    ]

-- Let every flag be funded. A flag that is created without claimants is then funded, the others
-- stay funded, and the escrow of the book grows by all the bounties of the flag; or the creation
-- repeats a known one, and nothing changes.
pub create-IsFunded :
    (flags : List Flag) (incoming : Flag) (book : List Flag)
    → All IsFunded flags
    → incoming.claimants ≡ []
    → incoming.claim_txids ≡ []
    → create flags incoming ≡ ok book
    → All IsFunded book
      × ((book ≡ flags)
          ⊎ (total_escrow book ≡ total_escrow flags + incoming.bounty_units * incoming.max_claims))
unfolding create
create-IsFunded flags incoming book funded none_yet none_recorded h =
    elim (Option-cases (find incoming.id flags)) [
      | inr (f, e) ↦ let same : book ≡ flags = ground arith in (rw same funded, inl same)
      | inl e ↦
          let (all, grown) =
            create_new-IsFunded flags incoming book funded none_yet none_recorded
              (rw (e, create) at h) in
          (all, inr grown)
    ]

-- The flag after one more claim.
abbrev pub taken : Flag → Bytes → Bytes → Flag
taken f recipient txid = record f {
  escrow = f.escrow - f.bounty_units;
  claimants = f.claimants ++ (recipient ∷ []);
  claim_txids = f.claim_txids ++ (txid ∷ []);
}

pub claim_new_sound :
    (f : Flag) (recipient key : Bytes) (height : ℕ) (txid : Bytes) (g : Flag)
    → claim_new f recipient key height txid ≡ ok g
    → (g ≡ taken f recipient txid)
      × (f.bounty_units ≤ f.escrow)
      × ((f.max_claims ≡ 0) ⊎ (length f.claimants < f.max_claims))
unfolding claim_new
claim_new_sound f recipient key height txid g h = ground arith

taken-IsFunded :
    (f : Flag) (recipient txid : Bytes)
    → IsFunded f
    → f.bounty_units ≤ f.escrow
    → (f.max_claims ≡ 0) ⊎ (length f.claimants < f.max_claims)
    → IsFunded (taken f recipient txid)
taken-IsFunded f recipient txid funded room below =
    let who : length (f.claimants ++ (recipient ∷ [])) ≡ length f.claimants + 1 =
      length-append f.claimants (recipient ∷ []) in
    let which : length (f.claim_txids ++ (txid ∷ [])) ≡ length f.claim_txids + 1 =
      length-append f.claim_txids (txid ∷ []) in
    let r = funded.recorded in
    let a = funded.account in
    record {
      account = rw who (omega arith);
      unpaid = funded.unpaid;
      limited = rw who (omega arith);
      recorded = rw (who, which) (omega arith);
    }

-- A claim that the flag has recorded: its recipient with its transaction.
abbrev pub IsClaim : Flag → Bytes → Bytes → Type 0
IsClaim f recipient txid =
    (i : ℕ) × ((get_elem? f.claimants i ≡ some recipient) × (get_elem? f.claim_txids i ≡ some txid))

seen-IsClaim :
    (r t : Bytes) (cs ts : List Bytes)
    → seen r t cs ts ≡ some true
    → (i : ℕ) × ((get_elem? cs i ≡ some r) × (get_elem? ts i ≡ some t))
unfolding seen
seen-IsClaim r t [] ts h = cc
seen-IsClaim r t (c ∷ cs) [] h = elim (Bool-cases (bytes_eq c r)) [
  | inl same ↦ ground arith
  | inr other ↦ let (i, (who, which)) = seen-IsClaim r t cs [] (ground arith) in ground arith
]
seen-IsClaim r t (c ∷ cs) (x ∷ ts) h = elim (Bool-cases (bytes_eq c r)) [
  | inl same ↦
      let who = (bytes_eq_iff c r).0 same in
      let repeat : bytes_eq x t ≡ true = ground arith in
      (0, (ap some who, ap some ((bytes_eq_iff x t).0 repeat)))
  | inr other ↦
      let (i, (who, which)) = seen-IsClaim r t cs ts (ground arith) in (suc i, (who, which))
]

claim_flag-IsFunded :
    (f : Flag) (recipient key : Bytes) (height : ℕ) (txid : Bytes) (g : Flag)
    → IsFunded f
    → claim_flag f recipient key height txid ≡ ok g
    → IsFunded g × (((g ≡ f) × IsClaim f recipient txid) ⊎ (g.escrow + f.bounty_units ≡ f.escrow))
unfolding claim_flag
claim_flag-IsFunded f recipient key height txid g funded h =
    elim (Option-cases (seen recipient txid f.claimants f.claim_txids)) [
      | inr (same, e) ↦
          let unchanged : g ≡ f = ground arith in
          let repeat : same ≡ true = ground arith in
          (
            rw unchanged funded,
            inl (
              unchanged,
              seen-IsClaim recipient txid f.claimants f.claim_txids (e ∙ ap some repeat),
            ),
          )
      | inl e ↦
          let (is_taken, room, below) =
            claim_new_sound f recipient key height txid g (rw (e, claim_flag) at h) in
          (
            rw is_taken (taken-IsFunded f recipient txid funded room below),
            inr (rw is_taken (omega arith)),
          )
    ]

-- Let every flag be funded. An accepted claim keeps them funded, and takes the bounty of the flag
-- that it names from the escrow of the book; or that flag has recorded this recipient with this
-- transaction, and nothing changes.
pub claim-IsFunded :
    (flags : List Flag) (id recipient key : Bytes) (height : ℕ) (txid : Bytes) (book : List Flag)
    → All IsFunded flags
    → claim flags id recipient key height txid ≡ ok book
    → All IsFunded book
      × (((book ≡ flags) × ((f : Flag) × ((find id flags ≡ some f) × IsClaim f recipient txid)))
          ⊎ ((f : Flag) × (find id flags ≡ some f)
              × (total_escrow book + f.bounty_units ≡ total_escrow flags)))
unfolding claim find
claim-IsFunded [] id recipient key height txid book funded h = cc
claim-IsFunded (f ∷ flags) id recipient key height txid book (ff, fs) h =
    let ih = claim-IsFunded flags id recipient key height txid in
    elim (Bool-cases (bytes_eq f.id id)) [
      | inl here ↦ elim (Result-cases (claim_flag f recipient key height txid)) [
        | inr (r, e) ↦ ground arith
        | inl (g, e) ↦
            let result : g ∷ flags ≡ book = ground arith in
            let (gf, change) = claim_flag-IsFunded f recipient key height txid g ff e in
            rw (← result) (
              (gf, fs),
              elim change [
                | inl (e, again) ↦ inl (ap (λ x. x ∷ flags) e, (f, (rw here, again)))
                | inr e ↦ inr (f, rw here, omega arith)
              ],
            )
      ]
      | inr there ↦ elim (Result-cases (claim flags id recipient key height txid)) [
        | inr (r, e) ↦ ground arith
        | inl (rest, e) ↦
            let result : f ∷ rest ≡ book = ground arith in
            let (rf, change) = ih rest fs e in
            rw (← result) (
              (ff, rf),
              elim change [
                | inl (e, (x, (known, again))) ↦ inl (ap (◌∷◌ f) e, (x, (rw there known, again)))
                | inr (x, known, paid) ↦ inr (x, rw there known, omega arith)
              ],
            )
      ]
    ]
