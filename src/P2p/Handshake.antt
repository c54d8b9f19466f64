-- ===== src/P2p/Handshake.antt =====
-- The greeting of two nodes.
use pi_secure.Wire.Peers.{IsVersion, deserialize_version-serialize_version}
use pi_secure.Prelude.{
  ltb, if◌then◌else◌, Option-cases, Bytes, u64_mod, ℕ, ◌<◌, ◌≡◌, refl, sym, ap, ap₂, subst, ◌∙◌,
  inl, inr, Bool, true, false, ◌&&◌, ◌||◌, Option, none, some, List, [], ◌∷◌, ◌++◌, append-nil,
  append_assoc, arith,
}
use pi_secure.Wire.Messages.{PeerAddr, Version, serialize_version}
use pi_secure.P2p.{
  MsgType, version_msg, verack_msg, addr_msg, getheaders_msg, Peer, Node, Env, Store, send_message,
  message, disconnect_peer,
}
use pi_secure.P2p.Greet.{
  greeted, send_version, send_verack, handle_verack, send_addr, send_addrs, request_headers,
  is_closed, handle_version, answered_version,
}
use pi_secure.P2p.Process.{is_open}

-- Every message to the peer goes out.
abbrev Sends : Env → Type 0
Sends env = (msg : Bytes) → env.sends msg ≡ true

-- What a message to the peer leaves as it is; the messages that are out stay out.
record Kept (p q : Peer) : Type 0 where
  fd_kept : q.fd ≡ p.fd
  received_kept : q.version_received ≡ p.version_received
  version_kept : q.version ≡ p.version
  services_kept : q.services ≡ p.services
  height_kept : q.start_height ≡ p.start_height
  agent_kept : q.user_agent ≡ p.user_agent
  complete_kept : q.handshake_complete ≡ p.handshake_complete
  verack_received_kept : q.verack_received ≡ p.verack_received
  more : List Bytes
  sent_kept : q.sent ≡ p.sent ++ more

Kept-refl : (p : Peer) → Kept p p
Kept-refl p = record {
  fd_kept = refl;
  received_kept = refl;
  version_kept = refl;
  services_kept = refl;
  height_kept = refl;
  agent_kept = refl;
  complete_kept = refl;
  verack_received_kept = refl;
  more = [];
  sent_kept = sym (append-nil p.sent);
}

send_message_open :
    (env : Env) (type_ : MsgType) (payload : Bytes) (peer : Peer) (k : ℕ)
    → Sends env
    → peer.fd ≡ some k
    → send_message env type_ payload peer
      ≡ record peer { sent = peer.sent ++ (message type_ payload ∷ []); last_send_time = env.now }
unfolding send_message
send_message_open env type_ payload peer k h e = rw (e, h (message type_ payload)) refl

send_message_closed :
    (env : Env) (type_ : MsgType) (payload : Bytes) (peer : Peer)
    → peer.fd ≡ none
    → send_message env type_ payload peer ≡ peer
unfolding send_message
send_message_closed env type_ payload peer e = rw e refl

send_message-Kept :
    (env : Env) (type_ : MsgType) (payload : Bytes) (peer : Peer)
    → Sends env
    → Kept peer (send_message env type_ payload peer)
send_message-Kept env type_ payload peer h = elim (Option-cases peer.fd) [
  | inl shut ↦
      subst (Kept peer) (sym (send_message_closed env type_ payload peer shut)) (Kept-refl peer)
  | inr (k, e) ↦ subst (Kept peer) (sym (send_message_open env type_ payload peer k h e)) (record {
    fd_kept = refl;
    received_kept = refl;
    version_kept = refl;
    services_kept = refl;
    height_kept = refl;
    agent_kept = refl;
    complete_kept = refl;
    verack_received_kept = refl;
    more = message type_ payload ∷ [];
    sent_kept = refl;
  })
]

-- The socket took the message, among others.
pub record HasSent (p : Peer) (msg : Bytes) : Type 0 where
  pub before : List Bytes
  pub after : List Bytes
  pub among : p.sent ≡ before ++ (msg ∷ after)

Kept-HasSent : {p q : Peer} (msg : Bytes) → Kept p q → HasSent p msg → HasSent q msg
Kept-HasSent msg k s = record {
  before = s.before;
  after = s.after ++ k.more;
  among =
      k.sent_kept ∙ ap (λ l. l ++ k.more) s.among ∙ append_assoc s.before (msg ∷ s.after) k.more;
}

-- A peer that was greeted: it is open, its version message is in, and the VERACK to it is out.
pub record IsGreeted (v : Version) (p : Peer) : Type 0 where
  pub opened : is_open p ≡ true
  pub received : p.version_received ≡ true
  pub version_is : p.version ≡ v.version
  pub services_are : p.services ≡ v.services
  pub height_is : p.start_height ≡ v.start_height
  pub agent_is : p.user_agent ≡ v.user_agent
  pub answered : HasSent p (message verack_msg [])

Kept-IsGreeted : {p q : Peer} (v : Version) → Kept p q → IsGreeted v p → IsGreeted v q
unfolding is_open
Kept-IsGreeted v k g = record {
  opened = ground (arith, k.fd_kept, g.opened);
  received = k.received_kept ∙ g.received;
  version_is = k.version_kept ∙ g.version_is;
  services_are = k.services_kept ∙ g.services_are;
  height_is = k.height_kept ∙ g.height_is;
  agent_is = k.agent_kept ∙ g.agent_is;
  answered = Kept-HasSent (message verack_msg []) k g.answered;
}

on_test {ℓ κ} :
    {A : Type ℓ} (P : A → Type κ) (test : Bool) (x y : A)
    → (test ≡ true → P x)
    → (test ≡ false → P y)
    → P (if test then x else y)
on_test P true x y hx hy = hx refl
on_test P false x y hx hy = hy refl

-- A peer that is open is not closed.
open_closed :
    (fd : Option ℕ) (peer : Peer) → peer.fd ≡ fd → is_open peer ≡ true → is_closed fd ≡ false
unfolding is_open is_closed
open_closed none peer e o = ground arith
open_closed (some k) peer e o = refl

-- The peer that `handleVersion` makes of a peer that is greeted.
abbrev heard : Peer → Version → Peer
heard peer v = record peer {
  version_received = true;
  version = v.version;
  services = v.services;
  start_height = v.start_height;
  user_agent = v.user_agent;
}

verack_out :
    (env : Env) (peer : Peer) (v : Version) (k : ℕ)
    → Sends env
    → peer.fd ≡ some k
    → IsGreeted v (send_message env verack_msg [] (record (heard peer v) { verack_sent = true }))
verack_out env peer v k h e =
    let ready : Peer = record (heard peer v) { verack_sent = true } in
    subst (IsGreeted v) (sym (send_message_open env verack_msg [] ready k h e)) (record {
      opened = unfold is_open in rw e refl;
      received = refl;
      version_is = refl;
      services_are = refl;
      height_is = refl;
      agent_is = refl;
      answered = record { before = peer.sent; after = []; among = refl };
    })

send_verack-IsGreeted :
    (env : Env) (peer : Peer) (v : Version)
    → Sends env
    → is_open peer ≡ true
    → peer.verack_sent ≡ false
    → IsGreeted v (send_verack env (heard peer v))
unfolding send_verack is_open
send_verack-IsGreeted env peer v h o fresh = elim (Option-cases peer.fd) [
  | inl shut ↦ ground arith
  | inr (k, e) ↦
      let test = peer.verack_sent || is_closed peer.fd in
      on_test (IsGreeted v) test _ _
        (λ (was : test ≡ true). ground (arith, open_closed peer.fd peer refl o))
        (λ (new : test ≡ false). verack_out env peer v k h e)
]

send_version-IsGreeted :
    (env : Env) (n : Node) (v : Version)
    → Sends env
    → IsGreeted v n.peer
    → IsGreeted v (send_version env n).peer
unfolding send_version
send_version-IsGreeted env n v h g =
    let test = n.peer.version_sent || is_closed n.peer.fd in
    let sent : Peer = record n.peer { version_sent = true } in
    let greeted : IsGreeted v sent = record {
      opened = unfold is_open in g.opened;
      received = g.received;
      version_is = g.version_is;
      services_are = g.services_are;
      height_is = g.height_is;
      agent_is = g.agent_is;
      answered = record {
        before = g.answered.before;
        after = g.answered.after;
        among = g.answered.among;
      };
    } in
    on_test (λ (m : Node). IsGreeted v m.peer) test _ _ (λ (was : test ≡ true). g)
      (λ (fresh : test ≡ false).
        Kept-IsGreeted v (send_message-Kept env version_msg _ sent h) greeted)

greeted-IsGreeted :
    (env : Env) (n : Node) (v : Version)
    → Sends env
    → is_open n.peer ≡ true
    → n.peer.verack_sent ≡ false
    → (n.peer.inbound && env.own_address n.peer.address.ip) ≡ false
    → IsGreeted v (greeted env n v).peer
unfolding greeted
greeted-IsGreeted env n v h o new other =
    let answering = send_verack-IsGreeted env n.peer v h o new in
    rw other (
      on_test (λ (m : Node). IsGreeted v m.peer) n.peer.inbound _ _
        (λ i. send_version-IsGreeted env _ v h answering) (λ i. answering))

-- A peer that was greeted and has finished the handshake.
pub record IsComplete (v : Version) (p : Peer) : Type 0 where
  pub greeted_as : IsGreeted v p
  pub complete : p.handshake_complete ≡ true

Kept-IsComplete : {p q : Peer} (v : Version) → Kept p q → IsComplete v p → IsComplete v q
Kept-IsComplete v k c = record {
  greeted_as = Kept-IsGreeted v k c.greeted_as;
  complete = k.complete_kept ∙ c.complete;
}

send_addrs-Kept :
    (env : Env) (addrs : List PeerAddr) (peer : Peer)
    → Sends env
    → Kept peer (send_addrs env addrs peer)
unfolding send_addrs
send_addrs-Kept env [] peer h = Kept-refl peer
send_addrs-Kept env (a ∷ addrs) peer h = send_message-Kept env addr_msg _ peer h

request_headers-Kept :
    (env : Env) (storage : Option Store) (best_height : ℕ) (peer : Peer)
    → Sends env
    → Kept peer (request_headers env storage best_height peer)
unfolding request_headers
request_headers-Kept env none best_height peer h = Kept-refl peer
request_headers-Kept env (some store) best_height peer h =
    on_test (Kept peer) (ltb best_height peer.start_height) _ _
      (λ t. send_message-Kept env getheaders_msg _ peer h) (λ t. Kept-refl peer)

handle_verack-IsComplete :
    (env : Env) (n : Node) (v : Version)
    → Sends env
    → IsGreeted v n.peer
    → (n.peer.verack_received || n.peer.handshake_complete) ≡ false
    → IsComplete v (handle_verack env n).peer
unfolding handle_verack send_addr
handle_verack-IsComplete env n v h g fresh =
    let done_ : Peer = record n.peer { verack_received = true; handshake_complete = true } in
    let complete : IsComplete v done_ = record {
      greeted_as = record {
        opened = unfold is_open in g.opened;
        received = g.received;
        version_is = g.version_is;
        services_are = g.services_are;
        height_is = g.height_is;
        agent_is = g.agent_is;
        answered = record {
          before = g.answered.before;
          after = g.answered.after;
          among = g.answered.among;
        };
      };
      complete = refl;
    } in
    rw fresh (
      Kept-IsComplete v (request_headers-Kept env _ _ _ h)
        (Kept-IsComplete v (send_addrs-Kept env _ done_ h) complete))

-- What of the peer `verack` sets.
abbrev done_with : Peer → Bool
done_with p = p.verack_received || p.handshake_complete

Kept-done_with : {p q : Peer} → Kept p q → done_with q ≡ done_with p
Kept-done_with k = ap₂ (λ (a b : Bool). a || b) k.verack_received_kept k.complete_kept

send_verack-done_with :
    (env : Env) (peer : Peer) → Sends env → done_with (send_verack env peer) ≡ done_with peer
unfolding send_verack
send_verack-done_with env peer h =
    on_test (λ (p : Peer). done_with p ≡ done_with peer) (peer.verack_sent || is_closed peer.fd) _ _
      (λ t. refl)
      (λ t.
        Kept-done_with (send_message-Kept env verack_msg [] (record peer { verack_sent = true }) h))

send_version-done_with :
    (env : Env) (n : Node) → Sends env → done_with (send_version env n).peer ≡ done_with n.peer
unfolding send_version
send_version-done_with env n h =
    on_test (λ (m : Node). done_with m.peer ≡ done_with n.peer)
      (n.peer.version_sent || is_closed n.peer.fd) _ _ (λ t. refl)
      (λ t.
        Kept-done_with
          (send_message-Kept env version_msg _ (record n.peer { version_sent = true }) h))

greeted-done_with :
    (env : Env) (n : Node) (v : Version)
    → Sends env
    → done_with (greeted env n v).peer ≡ done_with n.peer
unfolding greeted disconnect_peer
greeted-done_with env n v h =
    let own = n.peer.inbound && env.own_address n.peer.address.ip in
    let same = λ (m : Node). done_with m.peer ≡ done_with n.peer in
    on_test same own _ _ (λ t. refl)
      (λ t.
        on_test same n.peer.inbound _ _
          (λ i. send_version-done_with env _ h ∙ send_verack-done_with env _ h)
          (λ i. send_verack-done_with env _ h))

pub if_false {ℓ} : {A : Type ℓ} (test : Bool) (x y : A) → test ≡ false → (if test then x else y) ≡ y
if_false true x y h = cc
if_false false x y h = refl

-- The other side sends a version message whose numbers fit their fields, and then `verack`, to a peer
-- that is open and fresh, which has sent no VERACK itself and is not the node itself, over a socket
-- that takes every message. Then the handshake completes: the peer is still open, it holds what the
-- version message said, and the socket took a VERACK to it.
pub handshake-IsComplete :
    (env : Env) (n : Node) (v : Version) (addr_recv addr_from : PeerAddr) (nonce : ℕ)
    → ((msg : Bytes) → env.sends msg ≡ true)
    → is_open n.peer ≡ true
    → n.peer.version_received ≡ false
    → n.peer.verack_sent ≡ false
    → (n.peer.inbound && env.own_address n.peer.address.ip) ≡ false
    → IsVersion v
    → nonce < u64_mod
    → (n.peer.verack_received || n.peer.handshake_complete) ≡ false
    → (m : Node) × ((handle_version env n (serialize_version v addr_recv addr_from nonce) ≡ some m)
        × IsComplete v (handle_verack env m).peer)
unfolding handle_version answered_version
handshake-IsComplete env n v addr_recv addr_from nonce h o new silent other fits small fresh =
    let read =
      deserialize_version-serialize_version v addr_recv addr_from nonce env.stack_height fits
        small in
    (
      greeted env n v,
      (
        if_false n.peer.version_received _ _ new ∙ ap (answered_version env n) read,
        handle_verack-IsComplete env (greeted env n v) v h
            (greeted-IsGreeted env n v h o silent other) (greeted-done_with env n v h ∙ fresh),
      ),
    )
