-- ===== src/P2p/Loop.antt =====
-- The loop of `processMessages`: it ends, and what it leaves in the buffer is bounded.
use pi_secure.P2p.Shorter.{SubmitsShorter}
use pi_secure.Prelude.{
  Bool-cases, length, Bytes, ℕ, zero, suc, ◌*◌, ◌≤◌, ◌<◌, ◌≡◌, refl, sym, ap, subst, ◌∙◌, inl, inr,
  true, Option, none, some, [], ◌∷◌, ◌++◌, arith,
}
use pi_secure.P2p.{Node, Env}
use pi_secure.P2p.Process.{
  Round, waits, stops, goes_on, undefined, is_open, one_round, frame_round, process_frames,
  process_messages, take_in, bytes_in,
}
use pi_secure.P2p.Rounds.{
  buffer_limit, RoundOk, ok_waits, ok_stops, ok_goes_on, one_round-RoundOk, process_from,
  process_frames_step,
}

empty_round : (env : Env) (n : Node) → length n.peer.recv_buffer ≤ 0 → one_round env n ≡ waits
unfolding one_round
empty_round env n h = elim (Bool-cases (is_open n.peer)) [
  | inl open_ ↦ rw open_ (empty_frame n.peer.recv_buffer h)
  | inr shut ↦ rw shut refl
]
  where
    empty_frame : (s : Bytes) → length s ≤ 0 → frame_round env n s ≡ waits
    empty_frame [] h = unfold frame_round in refl
    empty_frame (b ∷ s) h = absurd (omega arith)

process_frames_idle :
    (fuel : ℕ) (env : Env) (n : Node) → one_round env n ≡ waits → process_frames fuel env n ≡ some n
process_frames_idle zero env n h = unfold process_frames in refl
process_frames_idle (suc fuel) env n h =
    process_frames_step fuel env n ∙ ap (process_from fuel env n) h ∙ unfold process_from in refl

-- The loop comes to an end, by one of its ways to end, after so many rounds that went on.
pub data EndsIn (env : Env) : ℕ → Node → Option Node → Type 0 where
  at_wait : {n : Node} → one_round env n ≡ waits → EndsIn env 0 n (some n)
  at_stop : {n m : Node} → one_round env n ≡ stops m → EndsIn env 0 n (some m)
  at_undefined : {n : Node} → one_round env n ≡ undefined → EndsIn env 0 n none
  after_round :
      {k : ℕ} {n m : Node} {o : Option Node}
      → one_round env n ≡ goes_on m
      → EndsIn env k m o
      → EndsIn env (suc k) n o

-- An end within the rounds that so many bytes allow.
abbrev pub Ends : Env → ℕ → Node → Option Node → Type 0
Ends env size n o = (k : ℕ) × ((5 * k ≤ size) × EndsIn env k n o)

some_inv : {A : Type 0} (a b : A) → some a ≡ some b → a ≡ b
some_inv a b h = cc

bounded_from :
    (fuel size : ℕ) (env : Env) (n m : Node) (r : Round)
    → RoundOk size r
    → size ≤ suc fuel
    → size ≡ length n.peer.recv_buffer
    → ((k : Node)
        → is_open k.peer ≡ true
        → length k.peer.recv_buffer ≤ fuel
        → process_frames fuel env k ≡ some m
        → length m.peer.recv_buffer < buffer_limit)
    → process_from fuel env n r ≡ some m
    → length m.peer.recv_buffer < buffer_limit
unfolding process_from
bounded_from fuel size env n m waits (ok_waits small) hf same ih e =
    subst (λ k. length k.peer.recv_buffer < buffer_limit) (some_inv n m e) (omega arith)
bounded_from fuel size env n m (stops k) (ok_stops nil) hf same ih e =
    subst (λ k. length k.peer.recv_buffer < buffer_limit) (some_inv k m e)
      (omega (arith, ap length nil))
bounded_from fuel size env n m (goes_on k) (ok_goes_on open_ short) hf same ih e =
    ih k open_ (omega arith) e
bounded_from fuel size env n m undefined ok hf same ih e = cc

left_IsBounded :
    (fuel : ℕ) (env : Env) (n m : Node)
    → SubmitsShorter env
    → is_open n.peer ≡ true
    → length n.peer.recv_buffer ≤ fuel
    → process_frames fuel env n ≡ some m
    → length m.peer.recv_buffer < buffer_limit
left_IsBounded zero env n m h open_ enough e =
    let same = some_inv n m (sym (process_frames_idle zero env n (empty_round env n enough)) ∙ e) in
    subst (λ k. length k.peer.recv_buffer < buffer_limit) same (omega arith)
left_IsBounded (suc fuel) env n m h open_ enough e =
    bounded_from fuel _ env n m (one_round env n) (one_round-RoundOk env n h open_) enough refl
      (λ k open_ short e. left_IsBounded fuel env k m h open_ short e)
      (sym (process_frames_step fuel env n) ∙ e)

-- Whatever an open peer sends, in however large a piece, the node keeps fewer than 5 + 2 MiB of it
-- once the messages are handled. It is assumed that `rpc_submitblock` leaves the buffer no longer.
pub process_messages-length :
    (env : Env) (n m : Node) (s : Bytes)
    → SubmitsShorter env
    → is_open n.peer ≡ true
    → process_messages env n (bytes_in s) ≡ some m
    → length m.peer.recv_buffer < buffer_limit
unfolding process_messages take_in is_open
process_messages-length env n m s h open_ e =
    let fed : Node = record n { peer = record n.peer { recv_buffer = n.peer.recv_buffer ++ s } } in
    left_IsBounded (length fed.peer.recv_buffer) env fed m h open_ (omega arith) (rw open_ at e)
