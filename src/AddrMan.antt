-- ===== src/AddrMan.antt =====
-- cpp/pisecured/src/p2p.cpp: `AddrMan`, the addresses of peers that the node knows and the bans. The
-- clock, in seconds, is the argument `now`; the random choice of `select` is the argument `pick`.
-- Each operation holds `mutex_`, a `std::mutex`, to its end, so it is one step. An operation that
-- would lock it a second time never ends, and gives nothing.
pub mod Known
pub mod Bans
mod Examples
use pi_secure.Prelude.{
  ltb, leb, ◌==◌, if◌then◌else◌, ltb→lt, lt→ltb, leb→le, ==_iff, Bool-cases, Option-cases, tests,
  length, get_elem?, set, length-append, length-set, get_elem?-set_self, get_elem?-set_ne,
  get_elem?-append_left, get_elem?-append_end, get_or, take, drop, replicate, take-append-drop,
  length-take, length-drop, length-replicate, length-map, take-append, drop-append, drop-suc-append,
  Bytes, codes, u64_mod, u64_max, u32_mod, All, All-append, All-append_left, All-append_right,
  IsByte, bytes_eq, bytes_eq_iff, bytes_eq_refl, fail_if, ◌>>=◌, is_ok, ◌>>◌, Result-cases, Reason,
  Result, ok, err, add64, sub64, mul64, sub_ℕ, ℤ, pos, negsuc, ℕ, zero, suc, ◌+◌, ◌-◌, ◌*◌, ◌/◌,
  ◌%◌, ◌^◌, ◌≤◌, ◌<◌, ◌≡◌, refl, sym, ap, ap₂, subst, ◌∙◌, ◌≢◌, ◌↔◌, ◌⊎◌, inl, inr, Bool, true,
  false, not, ◌&&◌, ◌||◌, Option, none, some, List, [], ◌∷◌, ◌++◌, map, append-nil, append_assoc,
  arith, dec_lt, ℕ_discrete,
}
use pi_secure.Wire.Messages.{PeerAddr}

-- The map from a banned address to the time when its ban ends.
pub record AddrMan : Type 0 where
  pub addr_list : List PeerAddr
  pub banned_ips : List (ℕ × ℕ)

-- `PeerAddr::operator==`
pub same_addr : PeerAddr → PeerAddr → Bool
same_addr a b = a.ip == b.ip && a.port == b.port

-- `bannedIPs.find`
pub find_ban : ℕ → List (ℕ × ℕ) → Option ℕ
find_ban ip [] = none
find_ban ip ((key, until) ∷ bans) = if key == ip then some until else find_ban ip bans

-- `bannedIPs[ip] = until`
pub set_ban : ℕ → ℕ → List (ℕ × ℕ) → List (ℕ × ℕ)
set_ban ip until [] = (ip, until) ∷ []
set_ban ip until ((key, old) ∷ bans) =
    if key == ip then (ip, until) ∷ bans else (key, old) ∷ set_ban ip until bans

pub is_banned : AddrMan → PeerAddr → ℕ → Bool
is_banned m addr now = elim (find_ban addr.ip m.banned_ips) [
  | none ↦ false
  | some until ↦ ltb now until
]

pub is_listed : PeerAddr → List PeerAddr → Bool
is_listed addr [] = false
is_listed addr (existing ∷ addrs) = same_addr existing addr || is_listed addr addrs

pub add : AddrMan → PeerAddr → ℕ → AddrMan
add m addr now =
    if is_banned m addr now || is_listed addr m.addr_list
    then m
    else record m { addr_list = m.addr_list ++ (addr ∷ []) }

-- The candidates of `select`.
pub candidates : AddrMan → ℕ → List PeerAddr → List PeerAddr
candidates m now [] = []
candidates m now (addr ∷ addrs) =
    if not (is_banned m addr now) && ltb addr.failures 5
    then addr ∷ candidates m now addrs
    else candidates m now addrs

-- Nothing where the source throws. `pick n` is below `n`, as `uniform_int_distribution` promises.
pub select : AddrMan → (ℕ → ℕ) → ℕ → Option PeerAddr
select m pick now =
    let viable = candidates m now m.addr_list in get_elem? viable (pick (length viable))

pub not_banned : AddrMan → ℕ → List PeerAddr → List PeerAddr
not_banned m now [] = []
not_banned m now (addr ∷ addrs) =
    if not (is_banned m addr now) then addr ∷ not_banned m now addrs else not_banned m now addrs

pub get_many : AddrMan → ℕ → ℕ → List PeerAddr
get_many m n now = not_banned m now (take n m.addr_list)

-- The first address that is the same is changed.
pub change_first : (PeerAddr → PeerAddr) → PeerAddr → List PeerAddr → List PeerAddr
change_first change addr [] = []
change_first change addr (existing ∷ addrs) =
    if same_addr existing addr
    then change existing ∷ addrs
    else existing ∷ change_first change addr addrs

pub mark_good : AddrMan → PeerAddr → ℕ → AddrMan
mark_good m addr now = record m {
  addr_list = change_first (λ a. record a { failures = 0; last_seen = now }) addr m.addr_list;
}

pub mark_attempt : AddrMan → PeerAddr → ℕ → AddrMan
mark_attempt m addr now = record m {
  addr_list = change_first (λ a. record a { last_seen = now }) addr m.addr_list;
}

pub find_addr : PeerAddr → List PeerAddr → Option PeerAddr
find_addr addr [] = none
find_addr addr (existing ∷ addrs) =
    if same_addr existing addr then some existing else find_addr addr addrs

-- Ban for 24 hours.
pub ban : AddrMan → PeerAddr → ℕ → AddrMan
ban m addr now = record m { banned_ips = set_ban addr.ip (now + 86_400) m.banned_ips }

-- With the entry found: `none` is that the call does not return. At the tenth failure it calls `ban`,
-- which locks the mutex that is held here. The mutex is no state of the model, since every other
-- operation takes and gives it back within one step.
pub failed_at : AddrMan → PeerAddr → Option PeerAddr → Option AddrMan
failed_at m addr none = some m
failed_at m addr (some existing) =
    if leb 10 (existing.failures + 1)
    then none
    else some (record m {
      addr_list = change_first (λ a. record a { failures = a.failures + 1 }) addr m.addr_list;
    })

pub mark_failure : AddrMan → PeerAddr → Option AddrMan
mark_failure m addr = failed_at m addr (find_addr addr m.addr_list)

pub cleanup_bans : List (ℕ × ℕ) → ℕ → List (ℕ × ℕ)
cleanup_bans [] now = []
cleanup_bans ((ip, until) ∷ bans) now =
    if leb until now then cleanup_bans bans now else (ip, until) ∷ cleanup_bans bans now
