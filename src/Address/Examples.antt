-- ===== src/Address/Examples.antt =====
-- Runs of the tests on names.
use pi_secure.Prelude.{codes, ◌≡◌, refl, true}
use pi_secure.Address.{valid_shortname, is_reserved_name}
use pi_secure.Address.{is_long_address}

named : valid_shortname (codes "AdaPi") ≡ true
unfolding valid_shortname
named = refl

reserved_any_case : is_reserved_name (codes "Validator") ≡ true
unfolding is_reserved_name
reserved_any_case = refl

long_one :
    is_long_address (codes "ps1522db177e6452cbb6e48f296b19e6f2bdeb5b5e7a41a9552eb60000000000000")
    ≡ true
unfolding is_long_address
long_one = refl
