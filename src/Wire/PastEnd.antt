-- ===== src/Wire/PastEnd.antt =====
-- `deserializeVersion` and `deserializeThreatAlert`, which read numbers that they have not tested
-- for.
use pi_secure.Prelude.{
  ltb, leb, leb→le, length, drop, length-drop, Bytes, ℕ, zero, suc, ◌≤◌, ◌<◌, ◌≡◌, refl, ◌↔◌, true,
  false, [], ◌∷◌, arith, dec_lt,
}
use pi_secure.Wire.{done, past_end, read_le, read_uint32, read_uint64, read_string}
use pi_secure.Wire.Fields.{bind-ne-past_end}
use pi_secure.Wire.VarInt.{read_string-IsRead}
use pi_secure.Wire.Messages.{
  deserialize_version, read_start_height, deserialize_threat_alert, read_confidence,
}
use pi_secure.Wire.Bounds.{
  InBounds, done-InBounds, optional-InBounds, IsRead-InBounds, read_le-InBounds,
}
use pi_secure.Wire.Codecs.{le_there}

read_le_short : (n : ℕ) (s : Bytes) → length s < n → read_le n s ≡ past_end
unfolding read_le
read_le_short zero s h = absurd (omega arith)
read_le_short (suc n) [] h = refl
read_le_short (suc n) (b ∷ s) h = rw (read_le_short n s (omega arith)) refl

read_start_height-InBounds : (old : ℕ) (s : Bytes) → InBounds (read_start_height old s)
unfolding read_start_height read_uint32
read_start_height-InBounds old s = optional-InBounds (leb 4 (length s)) _ old λ h.
    bind-ne-past_end (read_le 4 s) _ (read_le-InBounds 4 s (leb→le 4 (length s) h))
      λ (height, t). done-InBounds height

version_short :
    (payload : Bytes) (old : ℕ)
    → 40 ≤ length payload
    → length payload < 44
    → deserialize_version payload old ≡ past_end
unfolding deserialize_version read_uint32 read_uint64
version_short payload old lo hi =
    let big : ltb (length payload) 40 ≡ false = ground arith in
    le_there 4 payload (omega arith) λ v s1 e1 l1. le_there 8 s1 (omega arith) λ a s2 e2 l2.
      le_there 8 s2 (omega arith) λ b s3 e3 l3.
        let cut = read_le_short 8 (drop 16 s3) (omega (arith, length-drop 16 s3)) in
        rw (big, e1, e2, e3, cut) refl

version_long :
    (payload : Bytes) (old : ℕ) → 44 ≤ length payload → InBounds (deserialize_version payload old)
unfolding deserialize_version read_uint32 read_uint64
version_long payload old lo =
    let big : ltb (length payload) 40 ≡ false = ground arith in
    le_there 4 payload (omega arith) λ v s1 e1 l1. le_there 8 s1 (omega arith) λ a s2 e2 l2.
      le_there 8 s2 (omega arith) λ b s3 e3 l3.
        le_there 8 (drop 16 s3) (omega (arith, length-drop 16 s3)) λ n s4 e4 l4.
          rw (big, e1, e2, e3, e4)
            (bind-ne-past_end (read_string s4) _ (IsRead-InBounds _ _ (read_string-IsRead s4))
              λ (agent, s5).
                bind-ne-past_end (read_start_height old s5) _ (read_start_height-InBounds old s5)
                  λ h. done-InBounds _)

version_refused :
    (payload : Bytes) (old : ℕ) → length payload < 40 → InBounds (deserialize_version payload old)
unfolding deserialize_version
version_refused payload old few =
    let small : ltb (length payload) 40 ≡ true = ground arith in rw small (λ e. cc)

version_reads :
    (payload : Bytes) (old : ℕ)
    → deserialize_version payload old ≡ past_end
    → (40 ≤ length payload) × (length payload < 44)
version_reads payload old h = elim (dec_lt (length payload) 40) [
  | yes few ↦ absurd (version_refused payload old few h)
  | no many ↦ elim (dec_lt (length payload) 44) [
    | yes cut ↦ (omega arith, cut)
    | no full ↦ absurd (version_long payload old (omega arith) h)
  ]
]

-- `deserialize_version` reads behind the end of exactly the payloads of 40, 41, 42 or 43 bytes: the
-- guard asks for 40 bytes, and the fields before the user agent are 44.
pub deserialize_version-past_end_iff :
    (payload : Bytes) (start_height : ℕ)
    → (deserialize_version payload start_height ≡ past_end)
      ↔ ((40 ≤ length payload) × (length payload < 44))
deserialize_version-past_end_iff payload start_height = (
  λ h. version_reads payload start_height h,
  λ (lo, hi). version_short payload start_height lo hi,
)

read_confidence-InBounds : (old : ℕ) (s : Bytes) → InBounds (read_confidence old s)
unfolding read_confidence read_uint64
read_confidence-InBounds old s = optional-InBounds (leb 8 (length s)) _ old λ h.
    bind-ne-past_end (read_le 8 s) _ (read_le-InBounds 8 s (leb→le 8 (length s) h))
      λ (fixed, t). done-InBounds fixed

alert_short :
    (payload : Bytes) (confidence : ℕ) (threat_type severity s t : Bytes)
    → 20 ≤ length payload
    → read_string payload ≡ done (threat_type, s)
    → read_string s ≡ done (severity, t)
    → length t < 12
    → deserialize_threat_alert payload confidence ≡ past_end
unfolding deserialize_threat_alert read_uint32 read_uint64
alert_short payload confidence threat_type severity s t lo e1 e2 cut =
    let big : ltb (length payload) 20 ≡ false = ground arith in
    elim (dec_lt (length t) 4) [
      | yes few ↦ rw (big, e1, e2, read_le_short 4 t few) refl
      | no many ↦
          le_there 4 t (omega arith)
            λ v u e l. rw (big, e1, e2, e, read_le_short 8 u (omega arith)) refl
    ]

alert_long :
    (payload : Bytes) (confidence : ℕ) (threat_type severity s t : Bytes)
    → 20 ≤ length payload
    → read_string payload ≡ done (threat_type, s)
    → read_string s ≡ done (severity, t)
    → 12 ≤ length t
    → InBounds (deserialize_threat_alert payload confidence)
unfolding deserialize_threat_alert read_uint32 read_uint64
alert_long payload confidence threat_type severity s t lo e1 e2 enough =
    let big : ltb (length payload) 20 ≡ false = ground arith in
    le_there 4 t (omega arith) λ ip u e l. le_there 8 u (omega arith) λ time w e' l'.
      rw (big, e1, e2, e, e')
        (bind-ne-past_end (read_string w) _ (IsRead-InBounds _ _ (read_string-IsRead w))
          λ (details, x).
            bind-ne-past_end (read_string x) _ (IsRead-InBounds _ _ (read_string-IsRead x))
              λ (node, y).
                bind-ne-past_end (read_confidence confidence y) _
                  (read_confidence-InBounds confidence y) λ fixed. done-InBounds _)

-- Let a payload of 20 bytes or more be read as two texts with the bytes `t` behind them.
-- `deserialize_threat_alert` reads behind its end exactly if fewer than 12 bytes are left in `t`,
-- for the source address and the time.
pub deserialize_threat_alert-past_end_iff :
    (payload : Bytes) (confidence : ℕ) (threat_type severity s t : Bytes)
    → 20 ≤ length payload
    → read_string payload ≡ done (threat_type, s)
    → read_string s ≡ done (severity, t)
    → (deserialize_threat_alert payload confidence ≡ past_end) ↔ (length t < 12)
deserialize_threat_alert-past_end_iff payload confidence threat_type severity s t lo e1 e2 = (
  λ h. elim (dec_lt (length t) 12) [
    | yes few ↦ few
    | no many ↦
        absurd (alert_long payload confidence threat_type severity s t lo e1 e2 (omega arith) h)
  ],
  λ few. alert_short payload confidence threat_type severity s t lo e1 e2 few,
)
