-- ===== src/P2p/Rounds.antt =====
-- One round of the loop of `processMessages`.
use pi_secure.P2p.Shorter.{SubmitsShorter, dispatch-AllShorter}
use pi_secure.Prelude.{
  ltb, ltb→lt, Bool-cases, length, take, length-drop, Bytes, ℕ, suc, ◌+◌, ◌*◌, ◌≤◌, ◌<◌, ◌≡◌, refl,
  inl, inr, true, false, Option, none, some, [], ◌∷◌, arith,
}
use pi_secure.P2p.{MsgType, Node, Env, should_ban, max_message_bytes, disconnect_peer}
use pi_secure.P2p.Sync.{drop_peer}
use pi_secure.P2p.Buffer.{IsShorter, AllShorter, just}
use pi_secure.P2p.Process.{
  Round, waits, stops, goes_on, undefined, is_open, is_rejected, after_handler, one_round,
  frame_round, deliver, process_frames, msg_type,
}

-- The bytes that a peer may make the node keep.
abbrev pub buffer_limit : ℕ
buffer_limit = 5 + max_message_bytes

-- What a round may come to, with `size` bytes in the buffer before it.
pub data RoundOk (size : ℕ) : Round → Type 0 where
  ok_waits : size < buffer_limit → RoundOk size waits
  ok_stops : {m : Node} → m.peer.recv_buffer ≡ [] → RoundOk size (stops m)
  ok_goes_on :
      {m : Node}
      → is_open m.peer ≡ true
      → length m.peer.recv_buffer + 5 ≤ size
      → RoundOk size (goes_on m)
  ok_undefined : RoundOk size undefined

pub is_rejected-false :
    (t : Option MsgType) (declared : ℕ)
    → is_rejected t declared ≡ false
    → declared ≤ max_message_bytes
unfolding is_rejected
is_rejected-false t declared h = ground arith

after_handler-RoundOk :
    (env : Env) (n : Node) (size : ℕ) (o : Option Node)
    → AllShorter n o
    → length n.peer.recv_buffer + 5 ≤ size
    → RoundOk size (after_handler env o)
unfolding after_handler drop_peer disconnect_peer
after_handler-RoundOk env n size none s fits = ok_undefined
after_handler-RoundOk env n size (some m) (just s) fits = elim (Bool-cases (is_open m.peer)) [
  | inr shut ↦ rw shut (ok_stops refl)
  | inl open_ ↦ elim (Bool-cases (should_ban m.peer)) [
    | inl banned ↦ rw (open_, banned) (ok_stops refl)
    | inr free ↦ rw (open_, free) (ok_goes_on open_ (unfold IsShorter in omega arith))
  ]
]

deliver-RoundOk :
    (env : Env) (n : Node) (t : Option MsgType) (declared : ℕ) (rest : Bytes) (size : ℕ)
    → SubmitsShorter env
    → length rest + 5 ≤ size
    → RoundOk size (deliver env n t declared rest)
unfolding deliver drop_peer disconnect_peer
deliver-RoundOk env n none declared rest size h fits = ok_stops refl
deliver-RoundOk env n (some t) declared rest size h fits =
    after_handler-RoundOk env _ size _ (dispatch-AllShorter env t (take declared rest) _ h)
      (omega (arith, length-drop declared rest))

frame_round-RoundOk :
    (env : Env) (n : Node) (s : Bytes)
    → SubmitsShorter env
    → RoundOk (length s) (frame_round env n s)
unfolding frame_round drop_peer disconnect_peer
frame_round-RoundOk env n [] h = ok_waits (omega arith)
frame_round-RoundOk env n (a ∷ []) h = ok_waits (omega arith)
frame_round-RoundOk env n (a ∷ b ∷ []) h = ok_waits (omega arith)
frame_round-RoundOk env n (a ∷ b ∷ c ∷ []) h = ok_waits (omega arith)
frame_round-RoundOk env n (a ∷ b ∷ c ∷ d ∷ []) h = ok_waits (omega arith)
frame_round-RoundOk env n (code ∷ a ∷ b ∷ c ∷ d ∷ rest) h =
    let declared = a + 256 * b + 65_536 * c + 16_777_216 * d in
    elim (Bool-cases (is_rejected (msg_type code) declared)) [
      | inl bad ↦ rw bad (ok_stops refl)
      | inr good ↦ elim (Bool-cases (ltb (length rest) declared)) [
        | inl short ↦
            let most = is_rejected-false (msg_type code) declared good in
            let less = ltb→lt (length rest) declared short in
            rw (good, short) (ok_waits (omega arith))
        | inr whole ↦
            rw (good, whole) (deliver-RoundOk env n (msg_type code) declared rest _ h (omega arith))
      ]
    ]

pub one_round-RoundOk :
    (env : Env) (n : Node)
    → SubmitsShorter env
    → is_open n.peer ≡ true
    → RoundOk (length n.peer.recv_buffer) (one_round env n)
unfolding one_round
one_round-RoundOk env n h open_ = rw open_ (frame_round-RoundOk env n n.peer.recv_buffer h)

-- The loop after a round, by what the round came to.
unfoldable pub process_from : ℕ → Env → Node → Round → Option Node
process_from fuel env n waits = some n
process_from fuel env n (stops m) = some m
process_from fuel env n (goes_on m) = process_frames fuel env m
process_from fuel env n undefined = none

pub process_frames_step :
    (fuel : ℕ) (env : Env) (n : Node)
    → process_frames (suc fuel) env n ≡ process_from fuel env n (one_round env n)
unfolding process_frames process_from
process_frames_step fuel env n = elim (one_round env n) [
  | waits ↦ refl
  | stops m ↦ refl
  | goes_on m ↦ refl
  | undefined ↦ refl
]
