-- ===== src/P2p/Binary.antt =====
-- `handleBlock` on a payload that is not JSON.
use pi_secure.Blocks.Append.{append_block-opened}
use pi_secure.Index.Tip.{
  store_block_with_header-IsStored, store_block_with_header_appended, validate_block_header_follows,
}
use pi_secure.Prelude.{
  ltb, length, Bytes, u32_mod, ℕ, ◌+◌, ◌%◌, ◌≤◌, ◌<◌, ◌≡◌, refl, ap, ◌∙◌, true, false, some, arith,
}
use pi_secure.Index.{
  Index, BlockHeader, get_header_by_hash, validate_block_header, store_block_with_header,
}
use pi_secure.Blocks.{Blocks, append_block}
use pi_secure.Pow.{validate_block_pow}
use pi_secure.Wire.{done}
use pi_secure.P2p.{Node, Env, Store}
use pi_secure.P2p.Sync.{
  handle_block, handle_block_at, binary_block, check_binary, store_binary, stored_binary,
  read_block_header,
}
use pi_secure.P2p.Inventory.{begins_with_brace, broadcast_inv}

-- The tip of the storage of a node.
abbrev pub HasTip : Node → Bytes → ℕ → Type 0
HasTip n hash height =
    (store : Store) × ((n.storage ≡ some store)
      × ((store.index.best_block_hash ≡ hash) × (store.index.best_height ≡ height)))

-- No bits are asked for.
pow_free : (hash : Bytes) → validate_block_pow hash 0 ≡ true
unfolding validate_block_pow
pow_free hash = ground arith

handle_block_binary :
    (env : Env) (n : Node) (store : Store) (payload : Bytes) (header : BlockHeader)
    → n.storage ≡ some store
    → begins_with_brace payload ≡ false
    → 112 ≤ length payload
    → read_block_header env payload ≡ done header
    → handle_block env n payload ≡ binary_block env n store payload (done header)
unfolding handle_block handle_block_at
handle_block_binary env n store payload header known binary long read =
    let whole : ltb (length payload) 112 ≡ false = ground arith in
    rw known (rw (binary, whole, read) refl)

binary_block_free :
    (env : Env) (n : Node) (store : Store) (payload : Bytes) (header : BlockHeader)
    → header.difficulty ≡ 0
    → binary_block env n store payload (done header)
      ≡ some (
          check_binary env n store header
            (get_header_by_hash store.index header.prev_block_hash)
            payload)
unfolding binary_block
binary_block_free env n store payload header free =
    let passes : validate_block_pow header.hash header.difficulty ≡ true =
      ap (validate_block_pow header.hash) free ∙ pow_free header.hash in
    rw passes refl

check_binary_valid :
    (env : Env) (n : Node) (store : Store) (header prev : BlockHeader) (payload : Bytes)
    → validate_block_header (record header { height = (prev.height + 1) % u32_mod }) (some prev)
      ≡ true
    → check_binary env n store header (some prev) payload
      ≡ stored_binary n store
          (record header { height = (prev.height + 1) % u32_mod })
          (append_block store.blocks env.opened payload).0
          (store_block_with_header store.index
            (append_block store.blocks env.opened payload).1
            header.hash
            (record header { height = (prev.height + 1) % u32_mod }))
unfolding check_binary store_binary
check_binary_valid env n store header prev payload valid = rw valid refl

stored_binary-HasTip :
    (n : Node) (store : Store) (header : BlockHeader) (blocks : Blocks) (index : Index)
    (hash : Bytes) (height : ℕ)
    → index.best_block_hash ≡ hash
    → index.best_height ≡ height
    → HasTip (stored_binary n store header blocks (some index)) hash height
unfolding stored_binary broadcast_inv
stored_binary-HasTip n store header blocks index hash height e e' =
    (record store { index = index; blocks = blocks }, (refl, (e, e')))

-- Let the node have a storage whose block file opens, and let its tip be at a height below 2^32 - 1.
-- A peer sends 112 bytes or more that are not JSON, whose first are the fields of a header with
-- difficulty 0 that names as its parent a known header at the height of the tip, under that header's
-- own hash, and a time after it. Whatever its hash is, and whatever stands behind the header, the
-- node makes the block its tip, one above, without the tests of `rpc_submitblock`.
pub handle_block-HasTip :
    (env : Env) (n : Node) (store : Store) (payload : Bytes) (header prev : BlockHeader)
    → n.storage ≡ some store
    → env.opened ≡ true
    → begins_with_brace payload ≡ false
    → 112 ≤ length payload
    → read_block_header env payload ≡ done header
    → header.difficulty ≡ 0
    → get_header_by_hash store.index header.prev_block_hash ≡ some prev
    → header.prev_block_hash ≡ prev.hash
    → prev.height ≡ store.index.best_height
    → prev.height + 1 < u32_mod
    → prev.timestamp < header.timestamp
    → (m : Node) × ((handle_block env n payload ≡ some m)
        × HasTip m header.hash (store.index.best_height + 1))
handle_block-HasTip env n store payload header prev known opened binary long read free parent link
      top small later =
    let height : (prev.height + 1) % u32_mod ≡ store.index.best_height + 1 = omega arith in
    let placed : BlockHeader = record header { height = (prev.height + 1) % u32_mod } in
    let (index, stored) = store_block_with_header_appended store.index header.hash placed in
    let is = store_block_with_header-IsStored store.index true header.hash placed index stored in
    let (tip, up) = is.tip (omega arith) in
    let blocks = (append_block store.blocks env.opened payload).0 in
    let after : Node = stored_binary n store placed blocks (some index) in
    (
      after,
      (
        handle_block_binary env n store payload header known binary long read
            ∙ binary_block_free env n store payload header free
            ∙ ap some (
                ap (λ o. check_binary env n store header o payload) parent
                ∙ check_binary_valid env n store header prev payload
                    (validate_block_header_follows placed prev link refl later)
                ∙ ap (stored_binary n store placed blocks) (
                    ap (λ b. store_block_with_header store.index b header.hash placed)
                      (append_block-opened store.blocks env.opened payload ∙ opened)
                    ∙ stored)),
        stored_binary-HasTip n store placed blocks index _ _ tip (up ∙ height),
      ),
    )
