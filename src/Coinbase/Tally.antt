-- ===== src/Coinbase/Tally.antt =====
-- The sums by role add up to the units paid, as long as they fit in 64 bits.
use pi_secure.Prelude.{
  Bytes, u64_mod, Result-cases, ok, ℕ, ◌+◌, ◌<◌, ◌≡◌, inl, inr, List, [], ◌∷◌, arith,
}
use pi_secure.Coinbase.{Role, CbOut, Paid, tally_role, tally}

abbrev pub total_units : List CbOut → ℕ
total_units [] = 0
total_units (o ∷ outs) = o.units + total_units outs

abbrev pub total_paid : Paid → ℕ
total_paid p = p.paid_miner + p.paid_validator + p.paid_stakers + p.paid_loans + p.paid_foundation

tally_role_total :
    (r : Role) (a : Bytes) (u : ℕ) (p q : Paid)
    → u + total_paid p < u64_mod
    → tally_role r a u p ≡ ok q
    → total_paid q ≡ u + total_paid p
unfolding tally_role
tally_role_total Role.burn a u p q fits h = cc
tally_role_total Role.foundation a u p q fits h = ground arith
tally_role_total (Role.other text) a u p q fits h = cc
tally_role_total _ a u p q fits h = ground arith

pub tally_total :
    (outs : List CbOut) (p q : Paid)
    → total_units outs + total_paid p < u64_mod
    → tally outs p ≡ ok q
    → total_paid q ≡ total_units outs + total_paid p
unfolding tally
tally_total [] p q fits h = ground arith
tally_total (o ∷ outs) p q fits h = elim (Result-cases (tally_role o.role o.address o.units p)) [
  | inr (e, fail) ↦ ground arith
  | inl (p', step) ↦
      let one = tally_role_total o.role o.address o.units p p' (omega arith) step in
      let rest : tally outs p' ≡ ok q = ground arith in
      omega (arith, tally_total outs p' q (omega arith) rest)
]
