-- ===== src/Names/Examples.antt =====
-- A registry of one name takes a second, and a miner is resolved by it.
use pi_secure.Prelude.{replicate, Bytes, codes, bytes_eq, ok, ◌≡◌, refl, true, false, [], ◌∷◌, ◌++◌}
use pi_secure.Hex.{lower_hex}
use pi_secure.Address.{fold_name, valid_shortname, is_long_address}
use pi_secure.Names.{
  NameRec, find_folded, find_name, find_address, has_other_name, remember_known, remember_name,
  lookup_name, resolve_miner,
}
use pi_secure.Names.Registry.{IsRegistry}
use pi_secure.Names.Unique.{IsRemembered, remember_name-IsRemembered}
use pi_secure.Names.Resolve.{Resolves, resolve_miner-Resolves}

abbrev long_a : Bytes
long_a = codes "ps1" ++ replicate 64 b'a'

abbrev long_b : Bytes
long_b = codes "ps1" ++ replicate 64 b'b'

abbrev ada : NameRec
ada = record { name = codes "Ada"; address = long_a; kind = codes "register"; txid = [] }

abbrev bob : NameRec
bob = record { name = codes "bob"; address = long_b; kind = codes "register"; txid = codes "t1" }

ada-IsRegistry : IsRegistry (ada ∷ [])
unfolding find_folded find_address valid_shortname is_long_address
ada-IsRegistry = (refl, refl, refl, refl, tt)

remembered :
    remember_name (ada ∷ []) (codes "bob") long_b (codes "register") (codes "t1") false
    ≡ ok (ada ∷ bob ∷ [])
unfolding remember_name remember_known has_other_name find_name find_folded find_address
    valid_shortname is_long_address fold_name bytes_eq
remembered = refl

remember_name-IsRemembered_example : IsRemembered (ada ∷ []) (ada ∷ bob ∷ []) (codes "bob") long_b
remember_name-IsRemembered_example =
    remember_name-IsRemembered (ada ∷ []) (codes "bob") long_b (codes "register") (codes "t1") false
      (ada ∷ bob ∷ []) ada-IsRegistry remembered

resolved : resolve_miner (ada ∷ []) (codes "aDA") ≡ ok (codes "Ada", long_a)
unfolding resolve_miner lookup_name find_name find_folded valid_shortname is_long_address fold_name
    bytes_eq lower_hex
resolved = refl

ada_found : (is_long_address long_a ≡ true) × Resolves (ada ∷ []) (codes "aDA") (codes "Ada") long_a
ada_found =
    resolve_miner-Resolves (ada ∷ []) (codes "aDA") (codes "Ada") long_a ada-IsRegistry resolved
