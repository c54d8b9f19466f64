-- ===== src/P2p/Framing.antt =====
-- The frames that `sendMessage` writes, as `processMessages` takes them apart.
use pi_secure.P2p.Handshake.{if_false}
use pi_secure.Prelude.{
  ltb, if◌then◌else◌, length, length-append, take, length-take, take-append, drop-append, Bytes,
  u32_mod, ℕ, zero, suc, ◌+◌, ◌*◌, ◌/◌, ◌%◌, ◌≤◌, ◌<◌, ◌≡◌, refl, ap, ap₂, ◌∙◌, Bool, true, false,
  some, List, [], ◌∷◌, ◌++◌, append_assoc, arith,
}
use pi_secure.Tx.Fields.{le_bytes}
use pi_secure.Wire.{write_uint32}
use pi_secure.P2p.{
  MsgType, version_msg, verack_msg, addr_msg, inv_msg, getdata_msg, headers_msg, getheaders_msg,
  block_msg, tx_msg, ping_msg, pong_msg, reject_msg, getblocks_msg, threat_alert_msg, msg_code,
  Node, Env, message, max_message_bytes,
}
use pi_secure.P2p.Process.{
  msg_type, Round, waits, is_open, is_rejected, after_handler, deliver, frame_round, one_round,
  dispatch,
}
use pi_secure.P2p.Rounds.{is_rejected-false}

msg_type-msg_code : (t : MsgType) → msg_type (msg_code t) ≡ some t
unfolding msg_type
msg_type-msg_code version_msg = refl
msg_type-msg_code verack_msg = refl
msg_type-msg_code addr_msg = refl
msg_type-msg_code inv_msg = refl
msg_type-msg_code getdata_msg = refl
msg_type-msg_code headers_msg = refl
msg_type-msg_code getheaders_msg = refl
msg_type-msg_code block_msg = refl
msg_type-msg_code tx_msg = refl
msg_type-msg_code ping_msg = refl
msg_type-msg_code pong_msg = refl
msg_type-msg_code reject_msg = refl
msg_type-msg_code getblocks_msg = refl
msg_type-msg_code threat_alert_msg = refl

number : ℕ → ℕ → ℕ → ℕ → ℕ
number a b c d = a + 256 * b + 65_536 * c + 16_777_216 * d

number_lem :
    (n : ℕ)
    → n ≤ max_message_bytes
    → number
        (n % u32_mod % 256)
        (n % u32_mod / 256 % 256)
        (n % u32_mod / 256 / 256 % 256)
        (n % u32_mod / 256 / 256 / 256 % 256)
      ≡ n
unfolding number
number_lem n h = omega arith

-- The header of a frame.
frame_round-header :
    (env : Env) (n : Node) (t : MsgType) (payload rest : Bytes)
    → is_rejected (some t) (length payload) ≡ false
    → frame_round env n (msg_code t ∷ (write_uint32 (length payload % u32_mod) ++ rest)) ≡ (
        if ltb (length rest) (length payload)
        then waits
        else deliver env n (some t) (length payload) rest)
unfolding frame_round write_uint32 le_bytes number
frame_round-header env n t payload rest kept =
    let size = is_rejected-false (some t) (length payload) kept in
    rw (number_lem (length payload) size, msg_type-msg_code t, kept) refl

-- Let the buffer of an open peer begin with a message as `send_message` writes it, of a size that its
-- type may have. Then a round hands exactly its payload to the handler of its type, and exactly the
-- bytes behind it stay in the buffer.
pub one_round-message :
    (env : Env) (n : Node) (t : MsgType) (payload rest : Bytes)
    → is_open n.peer ≡ true
    → n.peer.recv_buffer ≡ message t payload ++ rest
    → is_rejected (some t) (length payload) ≡ false
    → one_round env n
      ≡ after_handler env
          (dispatch env t payload (record n { peer = record n.peer { recv_buffer = rest } }))
unfolding one_round message deliver
one_round-message env n t payload rest open_ starts kept =
    let whole : ltb (length (payload ++ rest)) (length payload) ≡ false =
      ground (arith, length-append payload rest) in
    rw open_ (
      ap (frame_round env n) (starts ∙ ap (◌∷◌ (msg_code t)) (append_assoc _ payload rest))
      ∙ frame_round-header env n t payload (payload ++ rest) kept
      ∙ if_false _ _ _ whole
      ∙ ap₂
          (λ p r.
            after_handler env
              (dispatch env t p (record n { peer = record n.peer { recv_buffer = r } })))
          (take-append payload rest) (drop-append payload rest))

short_round : (env : Env) (n : Node) (s : Bytes) → length s < 5 → frame_round env n s ≡ waits
unfolding frame_round
short_round env n [] h = refl
short_round env n (a ∷ []) h = refl
short_round env n (a ∷ b ∷ []) h = refl
short_round env n (a ∷ b ∷ c ∷ []) h = refl
short_round env n (a ∷ b ∷ c ∷ d ∷ []) h = refl
short_round env n (a ∷ b ∷ c ∷ d ∷ e ∷ s) h = absurd (omega arith)

if_true {ℓ} : {A : Type ℓ} (test : Bool) (x y : A) → test ≡ true → (if test then x else y) ≡ x
if_true true x y h = refl
if_true false x y h = cc

either_waits : (test : Bool) {r : Round} → r ≡ waits → (if test then r else waits) ≡ waits
either_waits true e = e
either_waits false e = refl

length-take_le : {A : Type 0} (k : ℕ) (s : List A) → length (take k s) ≤ k
length-take_le k s = omega (arith, length-take k s)

length-message : (t : MsgType) (payload : Bytes) → length (message t payload) ≡ 5 + length payload
unfolding message write_uint32 le_bytes
length-message t payload = omega arith

-- The frame without its end, from the sixth byte on.
cut_message :
    (t : MsgType) (payload : Bytes) (j : ℕ)
    → take (suc (suc (suc (suc (suc j))))) (message t payload)
      ≡ msg_code t ∷ (write_uint32 (length payload % u32_mod) ++ take j payload)
unfolding message write_uint32 le_bytes
cut_message t payload j = refl

cut_round :
    (env : Env) (n : Node) (t : MsgType) (payload : Bytes) (j : ℕ)
    → is_rejected (some t) (length payload) ≡ false
    → j < length payload
    → frame_round env n (take (suc (suc (suc (suc (suc j))))) (message t payload)) ≡ waits
cut_round env n t payload j kept cut =
    let lacks : ltb (length (take j payload)) (length payload) ≡ true =
      ground (arith, length-take_le j payload) in
    ap (frame_round env n) (cut_message t payload j)
    ∙ frame_round-header env n t payload (take j payload) kept
    ∙ if_true _ _ _ lacks

frame_round_cut :
    (env : Env) (n : Node) (t : MsgType) (payload : Bytes) (k : ℕ)
    → is_rejected (some t) (length payload) ≡ false
    → k < length (message t payload)
    → frame_round env n (take k (message t payload)) ≡ waits
frame_round_cut env n t payload (suc (suc (suc (suc (suc j))))) kept cut =
    cut_round env n t payload j kept (omega (arith, length-message t payload))
frame_round_cut env n t payload zero kept cut =
    short_round env n _ (omega (arith, length-take_le 0 (message t payload)))
frame_round_cut env n t payload (suc zero) kept cut =
    short_round env n _ (omega (arith, length-take_le 1 (message t payload)))
frame_round_cut env n t payload (suc (suc zero)) kept cut =
    short_round env n _ (omega (arith, length-take_le 2 (message t payload)))
frame_round_cut env n t payload (suc (suc (suc zero))) kept cut =
    short_round env n _ (omega (arith, length-take_le 3 (message t payload)))
frame_round_cut env n t payload (suc (suc (suc (suc zero)))) kept cut =
    short_round env n _ (omega (arith, length-take_le 4 (message t payload)))

-- However much of a message is still missing, a round waits for the rest and changes nothing.
pub one_round-take :
    (env : Env) (n : Node) (t : MsgType) (payload : Bytes) (k : ℕ)
    → n.peer.recv_buffer ≡ take k (message t payload)
    → is_rejected (some t) (length payload) ≡ false
    → k < length (message t payload)
    → one_round env n ≡ waits
unfolding one_round
one_round-take env n t payload k starts kept cut =
    let frame = ap (frame_round env n) starts ∙ frame_round_cut env n t payload k kept cut in
    either_waits (is_open n.peer) frame
