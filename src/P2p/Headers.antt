-- ===== src/P2p/Headers.antt =====
-- Headers from one node to another: `handleGetHeaders` of the one, `handleHeaders` of the other.
use pi_secure.Prelude.{
  if◌then◌else◌, length, Bytes, u32_mod, bytes_eq, bytes_eq_iff, ℕ, zero, suc, ◌+◌, ◌%◌, ◌≤◌, ◌<◌,
  ◌≡◌, refl, sym, ap, ◌∙◌, Bool, true, false, Option, none, some, List, [], ◌∷◌, map, arith,
}
use pi_secure.Index.{Index, BlockHeader, block_index}
use pi_secure.Wire.Messages.{InvVect}
use pi_secure.Wire.HeaderRow.{IsWireHeader}
use pi_secure.P2p.{inv_block}
use pi_secure.P2p.Sync.{
  collect_headers, headers_for, linked, first_height, link_to, link_rest, link_first, link_headers,
  ask_unless,
}

-- A header as it arrives: the height is not sent.
abbrev pub without_height : BlockHeader → BlockHeader
without_height h = record h { height = 0 }

-- Its numbers fit their fields, and its hashes have 32 bytes.
abbrev pub IsSendable : BlockHeader → Type 0
IsSendable h = IsWireHeader (without_height h)

-- Each header follows the one before it, at the next height.
abbrev pub IsRun : BlockHeader → List BlockHeader → Type 0
IsRun prev [] = Unit
IsRun prev (h ∷ headers) =
    (h.prev_block_hash ≡ prev.hash)
    × ((h.height ≡ prev.height + 1) × ((h.height < u32_mod) × IsRun h headers))

abbrev pub is_there : Option ℕ → Bool
is_there none = false
is_there (some i) = true

-- The blocks of the headers that the node does not have, in order.
abbrev pub missing : Index → List BlockHeader → List InvVect
missing s [] = []
missing s (h ∷ headers) =
    if is_there (block_index s h.hash)
    then missing s headers
    else record { type_ = inv_block; hash = h.hash } ∷ missing s headers

missing_lem :
    (h : BlockHeader) (invs : List InvVect) (found : Option ℕ)
    → ask_unless found h.hash invs
      ≡ (if is_there found then invs else record { type_ = inv_block; hash = h.hash } ∷ invs)
unfolding ask_unless
missing_lem h invs none = refl
missing_lem h invs (some i) = refl

link_to_lem :
    (s : Index) (h : BlockHeader) (headers : List BlockHeader)
    → link_to s h (linked headers (missing s headers))
      ≡ linked (h ∷ headers) (missing s (h ∷ headers))
unfolding link_to
link_to_lem s h headers =
    ap (linked (h ∷ headers)) (missing_lem h (missing s headers) (block_index s h.hash))

-- A header that gets back its height.
placed_again : (h : BlockHeader) (height : ℕ) → h.height ≡ height → record h { height = height } ≡ h
placed_again h height e = ap (λ (k : ℕ). record h { height = k }) (sym e)

link_rest_step :
    (s : Index) (prev h : BlockHeader) (headers : List BlockHeader)
    → h.prev_block_hash ≡ prev.hash
    → link_rest s prev (without_height h ∷ headers)
      ≡ link_to s
          (record h { height = (prev.height + 1) % u32_mod })
          (link_rest s (record h { height = (prev.height + 1) % u32_mod }) headers)
unfolding link_rest
link_rest_step s prev h headers e =
    let same : bytes_eq h.prev_block_hash prev.hash ≡ true = (bytes_eq_iff _ _).1 e in rw same refl

link_rest-IsRun :
    (s : Index) (prev : BlockHeader) (headers : List BlockHeader)
    → IsRun prev headers
    → link_rest s prev (map without_height headers) ≡ linked headers (missing s headers)
link_rest-IsRun s prev [] run = unfold link_rest in refl
link_rest-IsRun s prev (h ∷ headers) (e, (up, (small, run))) =
    let height : h.height ≡ (prev.height + 1) % u32_mod = omega arith in
    let here = placed_again h ((prev.height + 1) % u32_mod) height in
    link_rest_step s prev h (map without_height headers) e
    ∙ ap (λ x. link_to s x (link_rest s x (map without_height headers))) here
    ∙ ap (link_to s h) (link_rest-IsRun s h headers run)
    ∙ link_to_lem s h headers

-- Where the first header hangs: on no block, at height 1, or on a block that the node knows.
abbrev pub IsAnchored : Index → BlockHeader → Type 0
IsAnchored s h = first_height s (without_height h) ≡ some h.height

pub link_headers-IsRun :
    (s : Index) (h : BlockHeader) (headers : List BlockHeader)
    → IsAnchored s h
    → IsRun h headers
    → link_headers s (map without_height (h ∷ headers))
      ≡ linked (h ∷ headers) (missing s (h ∷ headers))
unfolding link_headers link_first
link_headers-IsRun s h headers anchored run =
    rw anchored (ap (link_to s h) (link_rest-IsRun s h headers run) ∙ link_to_lem s h headers)

length-collect_headers :
    (s : Index) (stop : Bytes) (room h : ℕ) → length (collect_headers s stop room h) ≤ room
unfolding collect_headers
length-collect_headers s stop zero h = omega arith
length-collect_headers s stop (suc room) h =
    ground (arith, length-collect_headers s stop room ((h + 1) % u32_mod))

pub length-headers_for :
    (s : Index) (locator : List Bytes) (stop : Bytes) → length (headers_for s locator stop) ≤ 2000
unfolding headers_for
length-headers_for s locator stop = length-collect_headers s stop 2000 _
