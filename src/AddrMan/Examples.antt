-- ===== src/AddrMan/Examples.antt =====
-- Addresses and bans on concrete input.
use pi_secure.Prelude.{ltb, ◌==◌, if◌then◌else◌, ℕ, ◌+◌, ◌≤◌, ◌≡◌, refl, ◌↔◌, none, [], ◌∷◌, arith}
use pi_secure.Wire.Messages.{PeerAddr}
use pi_secure.AddrMan.{
  AddrMan, same_addr, find_ban, is_banned, add, candidates, select, not_banned, get_many, find_addr,
  ban,
}
use pi_secure.AddrMan.Known.{IsUnique, here, next, adds, Reach-IsUnique}
use pi_secure.AddrMan.Bans.{
  is_banned-ban, IsViable, select-IsViable, fail_times, fail_times-hangs_iff,
}

abbrev host : ℕ → PeerAddr
host ip = record { ip = ip; port = 31_415; last_seen = 0; services = 1; failures = 0 }

abbrev empty : AddrMan
empty = record { addr_list = []; banned_ips = [] }

abbrev two_hosts : AddrMan
two_hosts = record { addr_list = host 1 ∷ host 2 ∷ []; banned_ips = (2, 90) ∷ [] }

only_first : get_many two_hosts 1000 50 ≡ host 1 ∷ []
unfolding get_many not_banned is_banned find_ban
only_first = refl

Reach-IsUnique_example : IsUnique (add (add empty (host 1) 5) (host 1) 6).addr_list
Reach-IsUnique_example =
    Reach-IsUnique {m = empty} tt
      (next (next here (adds empty (host 1) 5)) (adds (add empty (host 1) 5) (host 1) 6))

banned_for_a_while :
    is_banned (ban empty (host 7) 100) (host 7) 200
    ≡ (if 7 == 7 then ltb 200 86_500 else is_banned empty (host 7) 200)
banned_for_a_while = is_banned-ban empty (host 7) (host 7) 100 200

only_host_selected : IsViable two_hosts 50 (host 1)
unfolding select candidates is_banned find_ban
only_host_selected = select-IsViable two_hosts (λ n. 0) 50 (host 1) refl

fail_times-hangs_iff_example : (fail_times 10 two_hosts (host 1) ≡ none) ↔ (10 ≤ 0 + 10)
unfolding find_addr same_addr
fail_times-hangs_iff_example =
    fail_times-hangs_iff 10 two_hosts (host 1) (host 1) refl (omega arith)
