-- ===== src/Challenge/Table.antt =====
-- A challenge is issued once for a template, and retired with its tip.
use pi_secure.Prelude.{
  Bool-cases, Option-cases, Bytes, bytes_eq, bytes_eq_iff, bytes_eq_refl, ◌≡◌, refl, sym, ap, subst,
  ◌∙◌, ◌≢◌, inl, inr, true, false, not, ◌&&◌, Option, none, some, List, [], ◌∷◌, ◌++◌, arith,
}
use pi_secure.Hex.{to_hex}
use pi_secure.Challenge.{
  Challenges, find_text, assign, starts_with, forget_issued, forget_outstanding, forget_tip,
  template_key, challenge_for_template, challenge_was_issued, retire_challenge,
}

find_text-assign :
    (key value : Bytes) (entries : List (Bytes × Bytes))
    → find_text key (assign key value entries) ≡ some value
unfolding find_text assign
find_text-assign key value [] = rw (bytes_eq_refl key) refl
find_text-assign key value ((k, v) ∷ entries) = elim (Bool-cases (bytes_eq k key)) [
  | inl e ↦ rw e (rw (bytes_eq_refl key) refl)
  | inr e ↦ rw e (rw e (find_text-assign key value entries))
]

find_text-forget :
    (tip hex : Bytes) (entries : List (Bytes × Bytes))
    → find_text hex (forget_issued tip entries) ≢ some tip
unfolding find_text forget_issued
find_text-forget tip hex [] = λ e. cc
find_text-forget tip hex ((k, t) ∷ entries) =
    let ih = find_text-forget tip hex entries in
    elim (Bool-cases (bytes_eq t tip)) [
      | inl e ↦ rw e ih
      | inr e ↦ elim (Bool-cases (bytes_eq k hex)) [
        | inl same ↦ rw e (rw same (λ h. ground (arith, bytes_eq_refl tip)))
        | inr other ↦ rw e (rw other ih)
      ]
    ]

find_text-forget_kept :
    (tip hex other : Bytes) (entries : List (Bytes × Bytes))
    → other ≢ tip
    → find_text hex entries ≡ some other
    → find_text hex (forget_issued tip entries) ≡ some other
unfolding find_text forget_issued
find_text-forget_kept tip hex other [] ne h = cc
find_text-forget_kept tip hex other ((k, t) ∷ entries) ne h =
    ground (arith, find_text-forget_kept tip hex other entries ne, bytes_eq_iff t tip)

starts_with-key :
    (tip rest : Bytes) → starts_with (tip ++ (b'|' ∷ [])) (tip ++ (b'|' ∷ rest)) ≡ true
unfolding starts_with
starts_with-key [] rest = ground arith
starts_with-key (c ∷ tip) rest = ground (arith, starts_with-key tip rest)

find_text-forget_outstanding :
    (prefix key : Bytes) (entries : List (Bytes × Bytes))
    → starts_with prefix key ≡ true
    → find_text key (forget_outstanding prefix entries) ≡ none
unfolding find_text forget_outstanding
find_text-forget_outstanding prefix key [] h = refl
find_text-forget_outstanding prefix key ((k, v) ∷ entries) h =
    let ih = find_text-forget_outstanding prefix key entries h in
    elim (Bool-cases (starts_with prefix k)) [
      | inl e ↦ rw e ih
      | inr e ↦ elim (Bool-cases (bytes_eq k key)) [
        | inl same ↦
            let k_is = (bytes_eq_iff k key).0 same in
            let clash : true ≡ false = sym h ∙ rw (← k_is) e in cc
        | inr other ↦ rw e (rw other ih)
      ]
    ]

was_issued_of :
    (s : Challenges) (hex tip : Bytes)
    → find_text hex s.issued ≡ some tip
    → challenge_was_issued s hex tip ≡ true
unfolding challenge_was_issued
was_issued_of s hex tip h = ground (arith, bytes_eq_refl tip)

was_issued_inv :
    (s : Challenges) (hex tip : Bytes)
    → challenge_was_issued s hex tip ≡ true
    → find_text hex s.issued ≡ some tip
unfolding challenge_was_issued
was_issued_inv s hex tip h = elim (Option-cases (find_text hex s.issued)) [
  | inl e ↦ ground arith
  | inr (t, e) ↦ let same : t ≡ tip = ground (arith, bytes_eq_iff t tip) in e ∙ ap some same
]

not_issued :
    (s : Challenges) (hex tip : Bytes)
    → find_text hex s.issued ≢ some tip
    → challenge_was_issued s hex tip ≡ false
not_issued s hex tip n = elim (Bool-cases (challenge_was_issued s hex tip)) [
  | inl e ↦ absurd (n (was_issued_inv s hex tip e))
  | inr e ↦ e
]

for_template_known :
    (s : Challenges) (raw : Option Bytes) (tip merkle miner hex : Bytes)
    → find_text (template_key tip merkle miner) s.outstanding ≡ some hex
    → challenge_for_template s raw tip merkle miner ≡ (s, hex)
unfolding challenge_for_template
for_template_known s raw tip merkle miner hex h = ground arith

-- The tables after a new challenge.
abbrev issue : Challenges → Bytes → Bytes → Bytes → Bytes → Challenges
issue s hex tip merkle miner = record {
  issued = assign hex tip s.issued;
  outstanding = assign (template_key tip merkle miner) hex s.outstanding;
}

for_template_new :
    (s : Challenges) (r tip merkle miner : Bytes)
    → find_text (template_key tip merkle miner) s.outstanding ≡ none
    → challenge_for_template s (some r) tip merkle miner
      ≡ (issue s (to_hex r) tip merkle miner, to_hex r)
unfolding challenge_for_template
for_template_new s r tip merkle miner h = ground arith

retire_known :
    (s : Challenges) (hex tip : Bytes)
    → find_text hex s.issued ≡ some tip
    → retire_challenge s hex ≡ forget_tip tip s
unfolding retire_challenge
retire_known s hex tip h = ground arith

-- Let a template be new and random bytes be there. Its challenge then was issued for its tip, and a
-- poll of the same work returns it again and changes nothing, whatever the random bytes.
pub challenge_for_template_issued :
    (s : Challenges) (r tip merkle miner : Bytes) (raw : Option Bytes) (after : Challenges)
    (hex : Bytes)
    → find_text (template_key tip merkle miner) s.outstanding ≡ none
    → challenge_for_template s (some r) tip merkle miner ≡ (after, hex)
    → (challenge_was_issued after hex tip ≡ true)
      × (challenge_for_template after raw tip merkle miner ≡ (after, hex))
challenge_for_template_issued s r tip merkle miner raw after hex new h =
    let both = sym (for_template_new s r tip merkle miner new) ∙ h in
    let state : issue s (to_hex r) tip merkle miner ≡ after = ap (λ p. p.0) both in
    let text : to_hex r ≡ hex = ap (λ p. p.1) both in
    let issued : find_text hex after.issued ≡ some tip =
      rw (← state, ← text) (find_text-assign (to_hex r) tip s.issued) in
    let known : find_text (template_key tip merkle miner) after.outstanding ≡ some hex =
      rw (← state, ← text)
        (find_text-assign (template_key tip merkle miner) (to_hex r) s.outstanding) in
    (was_issued_of after hex tip issued, for_template_known after raw tip merkle miner hex known)

forget_tip-outstanding :
    (s : Challenges) (tip merkle miner : Bytes)
    → find_text (template_key tip merkle miner) (forget_tip tip s).outstanding ≡ none
unfolding forget_tip template_key
forget_tip-outstanding s tip merkle miner =
    find_text-forget_outstanding (tip ++ (b'|' ∷ [])) (tip ++ (b'|' ∷ (merkle ++ (b'|' ∷ miner))))
      s.outstanding (starts_with-key tip (merkle ++ (b'|' ∷ miner)))

forget_tip-issued :
    (s : Challenges) (tip hex : Bytes) → challenge_was_issued (forget_tip tip s) hex tip ≡ false
unfolding forget_tip
forget_tip-issued s tip hex =
    not_issued (forget_tip tip s) hex tip (find_text-forget tip hex s.issued)

-- No key stands twice, as in a map.
abbrev pub HasOnce : List (Bytes × Bytes) → Type 0
HasOnce [] = Unit
HasOnce ((k, v) ∷ entries) = (find_text k entries ≡ none) × HasOnce entries

find_text-forget_none :
    (tip hex : Bytes) (entries : List (Bytes × Bytes))
    → find_text hex entries ≡ none
    → find_text hex (forget_issued tip entries) ≡ none
unfolding find_text forget_issued
find_text-forget_none tip hex [] h = refl
find_text-forget_none tip hex ((k, t) ∷ entries) h =
    ground (arith, find_text-forget_none tip hex entries)

-- A challenge that is left was there.
find_text-forget_inv :
    (tip hex t : Bytes) (entries : List (Bytes × Bytes))
    → HasOnce entries
    → find_text hex (forget_issued tip entries) ≡ some t
    → find_text hex entries ≡ some t
unfolding find_text forget_issued
find_text-forget_inv tip hex t [] once h = cc
find_text-forget_inv tip hex t ((k, v) ∷ entries) (new, once) h =
    let ih = find_text-forget_inv tip hex t entries once in
    elim (Bool-cases (bytes_eq k hex)) [
      | inr other ↦ elim (Bool-cases (bytes_eq v tip)) [
        | inl gone ↦ rw other (ih (rw gone at h))
        | inr stays ↦ rw other (ih (rw (stays, other) at h))
      ]
      | inl same ↦ elim (Bool-cases (bytes_eq v tip)) [
        | inr stays ↦ rw same (rw (stays, same) at h)
        | inl gone ↦
            let k_is = (bytes_eq_iff k hex).0 same in
            let here : find_text hex entries ≡ none =
              subst (λ x. find_text x entries ≡ none) k_is new in
            let left = find_text-forget_none tip hex entries here in
            let now : find_text hex (forget_issued tip entries) ≡ some t = rw gone at h in cc
      ]
    ]

forget_tip_was_issued :
    (s : Challenges) (tip hex other : Bytes)
    → HasOnce s.issued
    → challenge_was_issued (forget_tip tip s) hex other
      ≡ (challenge_was_issued s hex other && not (bytes_eq other tip))
forget_tip_was_issued s tip hex other once =
    let after = challenge_was_issued (forget_tip tip s) hex other in
    let before = challenge_was_issued s hex other in
    elim (Bool-cases (bytes_eq other tip)) [
      | inl same ↦
          let is = (bytes_eq_iff other tip).0 same in
          let gone : after ≡ false = rw is (forget_tip-issued s tip hex) in ground arith
      | inr apart ↦
          let ne : other ≢ tip = λ e. ground (arith, (bytes_eq_iff other tip).1 e) in
          elim (Bool-cases before) [
            | inl was ↦
                let kept : after ≡ true = was_issued_of (forget_tip tip s) hex other (
                  unfold forget_tip in
                  find_text-forget_kept tip hex other s.issued ne
                    (was_issued_inv s hex other was)) in
                ground arith
            | inr was_not ↦ elim (Bool-cases after) [
              | inr is_not ↦ ground arith
              | inl is ↦
                  let there : find_text hex s.issued ≡ some other =
                    find_text-forget_inv tip hex other s.issued once
                      (unfold forget_tip in was_issued_inv (forget_tip tip s) hex other is) in
                  let clash = was_issued_of s hex other there in cc
            ]
          ]
    ]

-- Let no challenge stand twice in the table. After a challenge of a tip is retired, the challenges
-- that are issued are those that were, without the ones of that tip, and no template of that tip is
-- left.
pub retire_challenge_tip :
    (s : Challenges) (hex tip h other merkle miner : Bytes)
    → HasOnce s.issued
    → challenge_was_issued s hex tip ≡ true
    → (challenge_was_issued (retire_challenge s hex) h other
        ≡ (challenge_was_issued s h other && not (bytes_eq other tip)))
      × (find_text (template_key tip merkle miner) (retire_challenge s hex).outstanding ≡ none)
retire_challenge_tip s hex tip h other merkle miner once issued =
    rw (retire_known s hex tip (was_issued_inv s hex tip issued))
      (forget_tip_was_issued s tip h other once, forget_tip-outstanding s tip merkle miner)
