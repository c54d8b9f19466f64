-- ===== src/AddrMan/Bans.antt =====
-- Bans, the choice of a peer, and failures.
use pi_secure.Prelude.{
  ltb, leb, ◌==◌, if◌then◌else◌, Bool-cases, get_elem?, ℕ, zero, suc, ◌+◌, ◌≤◌, ◌<◌, ◌≡◌, refl, sym,
  ap, subst, ◌∙◌, ◌↔◌, inl, inr, true, false, not, ◌&&◌, Option, none, some, List, [], ◌∷◌, arith,
  dec_lt,
}
use pi_secure.Wire.Messages.{PeerAddr}
use pi_secure.AddrMan.{
  AddrMan, same_addr, find_ban, set_ban, is_banned, is_listed, candidates, select, change_first,
  find_addr, ban, failed_at, mark_failure,
}

find_ban-set_ban :
    (ip until key : ℕ) (bans : List (ℕ × ℕ))
    → find_ban key (set_ban ip until bans) ≡ (if ip == key then some until else find_ban key bans)
unfolding find_ban set_ban
find_ban-set_ban ip until key [] = refl
find_ban-set_ban ip until key ((k, old) ∷ bans) = ground (arith, find_ban-set_ban ip until key bans)

-- After a ban, exactly the addresses of the same host are banned for the next 24 hours, from the
-- ban on until just before the end, and the standing of every other host is what it was.
pub is_banned-ban :
    (m : AddrMan) (addr other : PeerAddr) (now later : ℕ)
    → is_banned (ban m addr now) other later
      ≡ (if addr.ip == other.ip then ltb later (now + 86_400) else is_banned m other later)
unfolding is_banned ban
is_banned-ban m addr other now later =
    ground (arith, find_ban-set_ban addr.ip (now + 86_400) other.ip m.banned_ips)

-- An address that may be dialled.
abbrev pub IsViable : AddrMan → ℕ → PeerAddr → Type 0
IsViable m now addr =
    (is_banned m addr now ≡ false) × ((addr.failures < 5) × (is_listed addr m.addr_list ≡ true))

none_absurd : {A B : Type 0} (a : A) → none ≡ some a → B
none_absurd a h = cc

some_inv : {A : Type 0} (a b : A) → some a ≡ some b → a ≡ b
some_inv a b h = cc

-- The head of the candidates, or one of the others.
candidates_head :
    (m : AddrMan) (now i : ℕ) (x : PeerAddr) (addrs viable : List PeerAddr) (a : PeerAddr)
    → (not (is_banned m x now) && ltb x.failures 5) ≡ true
    → get_elem? (x ∷ viable) i ≡ some a
    → ((j : ℕ)
        → get_elem? viable j ≡ some a
        → (is_banned m a now ≡ false) × ((a.failures < 5) × (is_listed a addrs ≡ true)))
    → (is_banned m a now ≡ false) × ((a.failures < 5) × (is_listed a (x ∷ addrs) ≡ true))
unfolding is_listed same_addr
candidates_head m now zero x addrs viable a e h rest =
    subst (λ a. (is_banned m a now ≡ false) × ((a.failures < 5) × (is_listed a (x ∷ addrs) ≡ true)))
      (some_inv x a h) (ground arith, (ground arith, ground arith))
candidates_head m now (suc i) x addrs viable a e h rest =
    let (b, (f, l)) = rest i h in (b, (f, ground (arith, l)))

candidates_lem :
    (m : AddrMan) (now i : ℕ) (addrs : List PeerAddr) (a : PeerAddr)
    → get_elem? (candidates m now addrs) i ≡ some a
    → (is_banned m a now ≡ false) × ((a.failures < 5) × (is_listed a addrs ≡ true))
unfolding candidates is_listed same_addr
candidates_lem m now i [] a h = cc
candidates_lem m now i (x ∷ addrs) a h =
    elim (Bool-cases (not (is_banned m x now) && ltb x.failures 5)) [
      | inl e ↦
          candidates_head m now i x addrs _ a e (rw e at h) λ j h. candidates_lem m now j addrs a h
      | inr e ↦
          let (b, (f, l)) = candidates_lem m now i addrs a (rw e at h) in
          (b, (f, ground (arith, l)))
    ]

-- What `select` gives is a listed address that is not banned and has failed fewer than five times,
-- whatever the random choice is.
pub select-IsViable :
    (m : AddrMan) (pick : ℕ → ℕ) (now : ℕ) (addr : PeerAddr)
    → select m pick now ≡ some addr
    → IsViable m now addr
unfolding select
select-IsViable m pick now addr h = candidates_lem m now _ m.addr_list addr h

-- `n` failures in a row.
abbrev pub fail_times : ℕ → AddrMan → PeerAddr → Option AddrMan
fail_times zero m addr = some m
fail_times (suc n) m addr = elim (fail_times n m addr) [
  | none ↦ none
  | some after ↦ mark_failure after addr
]

-- One failure more.
abbrev failed_once : PeerAddr → PeerAddr
failed_once a = record a { failures = a.failures + 1 }

find_addr-change_first :
    (addr x : PeerAddr) (addrs : List PeerAddr)
    → find_addr addr addrs ≡ some x
    → find_addr addr (change_first failed_once addr addrs) ≡ some (failed_once x)
unfolding find_addr change_first same_addr
find_addr-change_first addr x [] h = cc
find_addr-change_first addr x (a ∷ addrs) h =
    elim (Bool-cases (a.ip == addr.ip && a.port == addr.port)) [
      | inl e ↦ rw e (rw e (ap (λ o. some (failed_once o)) (some_inv a x (rw e at h))))
      | inr e ↦ rw e (rw e (find_addr-change_first addr x addrs (rw e at h)))
    ]

mark_failure_counts :
    (m : AddrMan) (addr x : PeerAddr)
    → find_addr addr m.addr_list ≡ some x
    → x.failures < 9
    → mark_failure m addr
      ≡ some (record m { addr_list = change_first failed_once addr m.addr_list })
unfolding mark_failure failed_at
mark_failure_counts m addr x h few =
    let free : leb 10 (x.failures + 1) ≡ false = ground arith in rw h (rw free refl)

mark_failure_hangs :
    (m : AddrMan) (addr x : PeerAddr)
    → find_addr addr m.addr_list ≡ some x
    → 9 ≤ x.failures
    → mark_failure m addr ≡ none
unfolding mark_failure failed_at
mark_failure_hangs m addr x h many =
    let full : leb 10 (x.failures + 1) ≡ true = ground arith in rw h (rw full refl)

fail_times_counts :
    (n : ℕ) (m : AddrMan) (addr x : PeerAddr)
    → find_addr addr m.addr_list ≡ some x
    → x.failures + n ≤ 9
    → (after : AddrMan) × ((fail_times n m addr ≡ some after)
        × (find_addr addr after.addr_list ≡ some (record x { failures = x.failures + n })))
fail_times_counts zero m addr x h few =
    let e : x.failures ≡ x.failures + 0 = omega arith in
    (m, (refl, h ∙ ap (λ (k : ℕ). some (record x { failures = k })) e))
fail_times_counts (suc n) m addr x h few =
    let (before, (e, f)) = fail_times_counts n m addr x h (omega arith) in
    let same : x.failures + n + 1 ≡ x.failures + suc n = omega arith in
    (
      record before { addr_list = change_first failed_once addr before.addr_list },
      (
        rw e (mark_failure_counts before addr _ f (omega arith)),
        find_addr-change_first addr _ before.addr_list f
            ∙ ap (λ (k : ℕ). some (record x { failures = k })) same,
      ),
    )

fail_times_hangs :
    (n : ℕ) (m : AddrMan) (addr x : PeerAddr)
    → find_addr addr m.addr_list ≡ some x
    → x.failures ≤ 9
    → 10 ≤ x.failures + n
    → fail_times n m addr ≡ none
fail_times_hangs zero m addr x h few many = absurd (omega arith)
fail_times_hangs (suc n) m addr x h few many = elim (dec_lt (x.failures + n) 10) [
  | yes below ↦
      let (before, (e, f)) = fail_times_counts n m addr x h (omega arith) in
      rw e (mark_failure_hangs before addr _ f (omega arith))
  | no above ↦ rw (fail_times_hangs n m addr x h few (omega arith)) refl
]

-- Let an address be listed with at most nine failures. Marking failures of it, one after the other,
-- hangs, since the mutex is locked twice, exactly if they bring its count to ten: the ban of the
-- address that the tenth failure calls for is never made.
pub fail_times-hangs_iff :
    (n : ℕ) (m : AddrMan) (addr x : PeerAddr)
    → find_addr addr m.addr_list ≡ some x
    → x.failures ≤ 9
    → (fail_times n m addr ≡ none) ↔ (10 ≤ x.failures + n)
fail_times-hangs_iff n m addr x h few = (
  λ hangs. elim (dec_lt (x.failures + n) 10) [
    | yes below ↦
        let (after, (e, _)) = fail_times_counts n m addr x h (omega arith) in
        none_absurd after (sym hangs ∙ e)
    | no above ↦ omega arith
  ],
  λ many. fail_times_hangs n m addr x h few many,
)
