-- ===== src/Challenge/Examples.antt =====
-- Challenges for two tips: one is issued, and one tip is retired.
use pi_secure.Prelude.{codes, bytes_eq, ◌≡◌, refl, true, not, ◌&&◌, none, some, [], ◌∷◌}
use pi_secure.Hex.{to_hex}
use pi_secure.Challenge.{
  Challenges, find_text, assign, template_key, challenge_for_template, challenge_was_issued,
  retire_challenge,
}
use pi_secure.Challenge.Table.{challenge_for_template_issued, retire_challenge_tip, HasOnce}

abbrev no_challenges : Challenges
no_challenges = record { issued = []; outstanding = [] }

abbrev one_challenge : Challenges
one_challenge = record {
  issued = (codes "ff01", codes "tip") ∷ [];
  outstanding = (codes "tip|root|ada", codes "ff01") ∷ [];
}

none_yet : find_text (template_key (codes "tip") (codes "root") (codes "ada")) [] ≡ none
unfolding find_text
none_yet = refl

issued_now :
    challenge_for_template no_challenges
      (some (255 ∷ 1 ∷ []))
      (codes "tip")
      (codes "root")
      (codes "ada")
    ≡ (one_challenge, codes "ff01")
unfolding challenge_for_template find_text assign template_key to_hex
issued_now = refl

fresh_challenge :
    (challenge_was_issued one_challenge (codes "ff01") (codes "tip") ≡ true)
    × (challenge_for_template one_challenge none (codes "tip") (codes "root") (codes "ada")
        ≡ (one_challenge, codes "ff01"))
fresh_challenge =
    challenge_for_template_issued no_challenges (255 ∷ 1 ∷ []) (codes "tip") (codes "root")
      (codes "ada") none one_challenge (codes "ff01") none_yet issued_now

abbrev two_tips : Challenges
two_tips = record one_challenge {
  issued = (codes "ff01", codes "tip") ∷ (codes "ff02", codes "old") ∷ [];
}

first_issued : challenge_was_issued two_tips (codes "ff01") (codes "tip") ≡ true
unfolding challenge_was_issued find_text bytes_eq
first_issued = refl

each_once : HasOnce two_tips.issued
unfolding find_text bytes_eq
each_once = (refl, (refl, tt))

retire_challenge_tip_example :
    (challenge_was_issued (retire_challenge two_tips (codes "ff01")) (codes "ff02") (codes "old")
      ≡ (challenge_was_issued two_tips (codes "ff02") (codes "old")
          && not (bytes_eq (codes "old") (codes "tip"))))
    × (find_text
          (template_key (codes "tip") (codes "root") (codes "ada"))
          (retire_challenge two_tips (codes "ff01")).outstanding
        ≡ none)
retire_challenge_tip_example =
    retire_challenge_tip two_tips (codes "ff01") (codes "tip") (codes "ff02") (codes "old")
      (codes "root") (codes "ada") each_once first_issued
