-- ===== src/Flags/Claims.antt =====
-- A recipient claims a flag once.
use pi_secure.Prelude.{
  inl, inr, ap, ◌∙◌, Bool-cases, Option-cases, Result-cases, length-append, Bool-cases,
  Option-cases, length, length-append, Bytes, All, bytes_eq, bytes_eq_iff, bytes_eq_refl,
  Result-cases, ok, err, ℕ, ◌≡◌, refl, ap, ◌∙◌, ◌≢◌, inl, inr, Bool, true, false, not, ◌&&◌, none,
  some, List, [], ◌∷◌, ◌++◌, arith,
}
use pi_secure.Prelude.Reason.{already_claimed}
use pi_secure.Flags.{claim_new, Flag, claim, claim_flag, seen, is_empty}
use pi_secure.Flags.Escrow.{claim_new_sound}

-- Every claimant has its transaction recorded beside it.
abbrev pub IsRecorded : Flag → Type 0
IsRecorded f = length f.claim_txids ≡ length f.claimants

seen-none_any : (r t u : Bytes) (cs ts : List Bytes) → seen r t cs ts ≡ none → seen r u cs ts ≡ none
unfolding seen
seen-none_any r t u [] ts h = refl
seen-none_any r t u (c ∷ cs) [] h = ground (arith, seen-none_any r t u cs [])
seen-none_any r t u (c ∷ cs) (x ∷ ts) h = ground (arith, seen-none_any r t u cs ts)

is_repeat : Bytes → Bytes → Bool
is_repeat t u = not (is_empty u) && bytes_eq t u

seen-append :
    (r t u : Bytes) (cs ts : List Bytes)
    → length ts ≡ length cs
    → seen r u cs ts ≡ none
    → seen r u (cs ++ (r ∷ [])) (ts ++ (t ∷ [])) ≡ some (is_repeat t u)
unfolding seen is_repeat
seen-append r t u [] [] len h = rw (bytes_eq_refl r)
seen-append r t u [] (x ∷ ts) len h = absurd (omega arith)
seen-append r t u (c ∷ cs) [] len h = absurd (omega arith)
seen-append r t u (c ∷ cs) (x ∷ ts) len h = ground (arith, seen-append r t u cs ts (omega arith))

seen_again :
    (r t u : Bytes) (cs ts : List Bytes)
    → seen r t cs ts ≡ some true
    → seen r u cs ts ≡ some (is_repeat t u)
unfolding seen is_repeat
seen_again r t u [] ts h = cc
seen_again r t u (c ∷ cs) [] h = ground (arith, seen_again r t u cs [])
seen_again r t u (c ∷ cs) (x ∷ ts) h = ground (arith, seen_again r t u cs ts, bytes_eq_iff x t)

-- After a claim, the recipient's claims are told by the transaction alone.
claim_flag-seen :
    (f : Flag) (r key : Bytes) (height : ℕ) (t u : Bytes) (g : Flag)
    → IsRecorded f
    → claim_flag f r key height t ≡ ok g
    → (seen r u g.claimants g.claim_txids ≡ some (is_repeat t u)) × IsRecorded g
unfolding claim_flag
claim_flag-seen f r key height t u g rec h =
    elim (Option-cases (seen r t f.claimants f.claim_txids)) [
      | inr (same, e) ↦
          let unchanged : g ≡ f = ground arith in
          let repeat : same ≡ true = ground arith in
          rw unchanged (seen_again r t u f.claimants f.claim_txids (e ∙ ap some repeat), rec)
      | inl e ↦
          let (is_taken, room, below) =
            claim_new_sound f r key height t g (rw (e, claim_flag) at h) in
          rw is_taken (
            seen-append r t u f.claimants f.claim_txids rec (seen-none_any r t u _ _ e),
            omega (
              arith,
              length-append f.claimants (r ∷ []),
              length-append f.claim_txids (t ∷ []),
              rec,
            ),
          )
    ]

claim_flag-id :
    (f : Flag) (r key : Bytes) (height : ℕ) (t : Bytes) (g : Flag)
    → claim_flag f r key height t ≡ ok g
    → g.id ≡ f.id
unfolding claim_flag claim_new
claim_flag-id f r key height t g h = ground arith

is_repeat_self : (t : Bytes) → t ≢ [] → is_repeat t t ≡ true
unfolding is_empty is_repeat
is_repeat_self [] h = absurd (h refl)
is_repeat_self (c ∷ t) h = bytes_eq_refl (c ∷ t)

is_repeat_other : (t u : Bytes) → u ≢ t → is_repeat t u ≡ false
unfolding is_repeat
is_repeat_other t u h = ground (arith, bytes_eq_iff t u)

claim_flag_once :
    (g : Flag) (r t : Bytes)
    → t ≢ []
    → ((u : Bytes) → seen r u g.claimants g.claim_txids ≡ some (is_repeat t u))
    → (key : Bytes) (height : ℕ)
    → (claim_flag g r key height t ≡ ok g)
      × ((u : Bytes) → u ≢ t → claim_flag g r key height u ≡ err already_claimed)
unfolding claim_flag
claim_flag_once g r t nonempty told key height = (
  rw (told t, claim_flag) (rw (is_repeat_self t nonempty)),
  λ u ne. rw (told u, claim_flag) (rw (is_repeat_other t u ne)),
)

-- Let every claimant of every flag have its transaction recorded. A claim with a nonempty transaction
-- id that was accepted is accepted again with no effect, whatever the height and the key; with any
-- other transaction the same recipient is told that the flag is claimed.
pub claim_once :
    (flags : List Flag) (id r key : Bytes) (height : ℕ) (t : Bytes) (book : List Flag)
    → All IsRecorded flags
    → t ≢ []
    → claim flags id r key height t ≡ ok book
    → (key' : Bytes) (height' : ℕ) (u : Bytes) → u ≢ t
    → (claim book id r key' height' t ≡ ok book)
      × (claim book id r key' height' u ≡ err already_claimed)
unfolding claim
claim_once [] id r key height t book rec nonempty h key' height' u ne = cc
claim_once (f ∷ flags) id r key height t book (rf, rs) nonempty h key' height' u ne =
    let ih = claim_once flags id r key height t in
    elim (Bool-cases (bytes_eq f.id id)) [
      | inl here ↦ elim (Result-cases (claim_flag f r key height t)) [
        | inr (reason, e) ↦ ground arith
        | inl (g, e) ↦
            let result : g ∷ flags ≡ book = ground arith in
            let told = λ (v : Bytes). (claim_flag-seen f r key height t v g rf e).0 in
            let (again, other) = claim_flag_once g r t nonempty told key' height' in
            let found : bytes_eq g.id id ≡ true = rw (claim_flag-id f r key height t g e) here in
            rw (← result) (rw (found, again) refl, rw (found, other u ne) refl)
      ]
      | inr there ↦ elim (Result-cases (claim flags id r key height t)) [
        | inr (reason, e) ↦ ground arith
        | inl (rest, e) ↦
            let result : f ∷ rest ≡ book = ground arith in
            let (again, other) = ih rest rs nonempty e key' height' u ne in
            rw (← result) (rw (there, again) refl, rw (there, other) refl)
      ]
    ]
