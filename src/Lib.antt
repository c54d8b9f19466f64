-- ===== src/Lib.antt =====
-- PiSecure: a model of the node's consensus rules and of what it keeps, with the theorems on them.
--
-- The node (cpp/pisecured) accepts blocks and transactions over RPC and from peers. A block's coinbase
-- pays by the emission schedule, a transaction spends unspent outputs, and flags hold bounties in
-- escrow that later transactions claim. `rpc_submitblock` in cpp/pisecured/src/chain_rpc.cpp runs
-- the checks in turn, then updates the unspent outputs that cpp/pisecured/src/storage.cpp holds.
--
-- Files, with what they model:
--   Prelude   shared: tests, lists and strings over the native numbers, results with the reasons of
--             the source, wrapping 64-bit arithmetic.
--   Amount    cpp/common/amount.hpp: parse_314st_pi and format_314st_pi.
--   Retarget  cpp/pisecured/include/pisecured/retarget.hpp: round_log2 and retarget_difficulty_bits.
--   Emission  cpp/pisecured/include/pisecured/chain_rpc.hpp: the schedule, the fee shares and
--             coinbase_subsidy_ok.
--   Hex       chain_rpc.cpp: to_hex, from_hex, decode_hex, lower_hex.
--   Address   chain_rpc.cpp and include/pisecured/flags.hpp: the tests on names and addresses.
--   Tx        chain_rpc.cpp: Tx, canonical_tx, txid_of, merkle_root.
--   Coinbase  chain_rpc.cpp: emission_for, template_coinbase, coinbase_from, and the part of
--             rpc_submitblock that checks a coinbase.
--   Flags     include/pisecured/flags.hpp: FlagBook.
--   Utxo      storage.cpp: the unspent outputs and apply_utxos.
--   Spend     chain_rpc.cpp: find_outpoint, check_spendable, and the spends and credits of a
--             transaction in rpc_submitblock.
--   Names     chain_rpc.cpp: the registry of names, resolve_miner and resolve_output_names.
--   Blocks    storage.cpp: the frames of the block files, append_block, read_block, scan_existing.
--   Pow       storage.cpp: validate_block_pow.
--   Index     storage.cpp: the known headers, the active chain and its tip; chain_rpc.cpp:
--             next_difficulty.
--   Challenge chain_rpc.cpp: the tables of challenges, challenge_for_template, retire_challenge.
--   Wire      p2p.cpp and include/pisecured/p2p.hpp: MessageSerializer. A read behind the end of a
--             payload is an outcome of its own.
--   AddrMan   p2p.cpp: AddrMan, the addresses and the bans. Its mutex is no state of the model; that
--             markFailure locks it twice at the tenth failure is the outcome `none`.
--   P2p       p2p.cpp and include/pisecured/p2p.hpp: P2PServer with the peer at hand. The record
--             `Env` holds what comes from outside: the clocks, random numbers, whether a socket takes
--             a message, SHA-256, what stands in variables that the source does not set, and
--             rpc_submitblock on a block in JSON.
--   Block     chain_rpc.cpp: verify_input_signatures, admit_register, flag_outputs_ok, apply_flag_tx
--             and the loop of rpc_submitblock over the transactions of a block. The record `Outside`
--             holds Ed25519, SHA-256, the JSON text that is signed, and what wallet files and grants
--             say. The registry of names is the one before the block: that grant_matches remembers a
--             name that it grants is left out.
--   Chain     chain_rpc.cpp: chain_ending_at and choose_longest_chain.
--   Sha256    cpp/crypto/sha256.cpp: Sha256Ctx, sha256, sha256d and sha256d64.
--
-- A C++ function that returns false with a reason is a function into `Result`, whose errors are the
-- reasons; one that returns false alone is a function into `Option`. A method of a class takes the
-- state and returns the new one. std::string and byte vectors are lists of byte values, and a machine
-- integer is a natural number whose operations wrap where the source's do. The node takes SHA-256 from
-- OpenSSL, so there it is a parameter; the theorems hold for any function in its place. So are the bytes of RAND_bytes.
--
-- Bounds and fuel: round_log2 shifts a 64-bit value at most 64 times, which is the loop's fuel,
-- and its theorem shows that this is enough. The decimal printer recurses with the number itself
-- as fuel, and merkle_root with the number of ids, which no level exceeds. The walk of
-- chain_ending_at has the source's own bound, one round more than there are stored blocks, and no
-- chain is longer. The loop over the bits of a byte in validate_block_pow has eight rounds. The
-- scan of a block file takes a byte at least in a round, so the file's size is enough. The loop of
-- get_block_locator_hashes goes down from the tip, whose height is its fuel, and the answer to
-- getheaders has the source's bound of 2000 headers. The loop of processMessages takes five bytes at
-- least in a round, so the length of the buffer is enough. The
-- loop of Sha256Ctx::write takes a byte at least in a round.
--
-- Not modelled: JSON, files, sockets, threads, dialling other peers, the exchange with the bootstrap
-- server and the scores of ThreatDetector in p2p.cpp, the hardware hash and the wallet's interface. A mutex
-- that the source holds during a whole operation makes the operation one step of the model.
pub mod Prelude
pub mod Amount
pub mod Retarget
pub mod Emission
pub mod Hex
pub mod Address
pub mod Tx
pub mod Coinbase
pub mod Flags
pub mod Utxo
pub mod Spend
pub mod Names
pub mod Pow
pub mod Index
pub mod Chain
pub mod Blocks
pub mod Challenge
pub mod Wire
pub mod AddrMan
pub mod P2p
pub mod Block
pub mod Sha256
