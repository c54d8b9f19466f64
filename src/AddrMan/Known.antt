-- ===== src/AddrMan/Known.antt =====
-- The list of addresses names each address once, and keeps doing so.
use pi_secure.Prelude.{
  leb, Bool-cases, ℕ, ◌+◌, ◌≡◌, refl, subst, ◌∙◌, inl, inr, false, ◌||◌, Option, none, some, List,
  [], ◌∷◌, ◌++◌, arith,
}
use pi_secure.Wire.Messages.{PeerAddr}
use pi_secure.AddrMan.{
  AddrMan, same_addr, is_banned, is_listed, add, change_first, mark_good, mark_attempt,
  mark_failure, ban, cleanup_bans, failed_at,
}

-- No two entries have the same address and port.
abbrev pub IsUnique : List PeerAddr → Type 0
IsUnique [] = Unit
IsUnique (a ∷ addrs) = (is_listed a addrs ≡ false) × IsUnique addrs

-- A change that keeps address and port.
abbrev KeepsAddr : (PeerAddr → PeerAddr) → Type 0
KeepsAddr change = (a : PeerAddr) → ((change a).ip ≡ a.ip) × ((change a).port ≡ a.port)

is_listed-change_first :
    (change : PeerAddr → PeerAddr) (addr x : PeerAddr) (addrs : List PeerAddr)
    → KeepsAddr change
    → is_listed x (change_first change addr addrs) ≡ is_listed x addrs
unfolding is_listed change_first same_addr
is_listed-change_first change addr x [] keeps = refl
is_listed-change_first change addr x (a ∷ addrs) keeps =
    ground (arith, keeps a, is_listed-change_first change addr x addrs keeps)

is_listed_same :
    (x y : PeerAddr) (addrs : List PeerAddr)
    → (x.ip ≡ y.ip) × (x.port ≡ y.port)
    → is_listed x addrs ≡ is_listed y addrs
unfolding is_listed same_addr
is_listed_same x y [] e = refl
is_listed_same x y (a ∷ addrs) e = ground (arith, is_listed_same x y addrs e)

change_first-IsUnique :
    (change : PeerAddr → PeerAddr) (addr : PeerAddr) (addrs : List PeerAddr)
    → KeepsAddr change
    → IsUnique addrs
    → IsUnique (change_first change addr addrs)
unfolding change_first
change_first-IsUnique change addr [] keeps u = tt
change_first-IsUnique change addr (a ∷ addrs) keeps (h, u) = elim (Bool-cases (same_addr a addr)) [
  | inl e ↦ rw e (is_listed_same (change a) a addrs (keeps a) ∙ h, u)
  | inr e ↦ rw e (
    is_listed-change_first change addr a addrs keeps ∙ h,
    change_first-IsUnique change addr addrs keeps u,
  )
]

is_listed-append :
    (x a : PeerAddr) (addrs : List PeerAddr)
    → is_listed x (addrs ++ (a ∷ [])) ≡ (is_listed x addrs || same_addr a x)
unfolding is_listed same_addr
is_listed-append x a [] = ground arith
is_listed-append x a (b ∷ addrs) = ground (arith, is_listed-append x a addrs)

append-IsUnique :
    (a : PeerAddr) (addrs : List PeerAddr)
    → is_listed a addrs ≡ false
    → IsUnique addrs
    → IsUnique (addrs ++ (a ∷ []))
unfolding is_listed same_addr
append-IsUnique a [] h u = (refl, tt)
append-IsUnique a (b ∷ addrs) h (hb, u) =
    (ground (arith, is_listed-append b a addrs), append-IsUnique a addrs (ground arith) u)

-- What the node does with the addresses. An operation that never ends takes no step.
pub data Step : AddrMan → AddrMan → Type 0 where
  adds : (m : AddrMan) (addr : PeerAddr) (now : ℕ) → Step m (add m addr now)
  marks_good : (m : AddrMan) (addr : PeerAddr) (now : ℕ) → Step m (mark_good m addr now)
  marks_attempt : (m : AddrMan) (addr : PeerAddr) (now : ℕ) → Step m (mark_attempt m addr now)
  marks_failure :
      (m next : AddrMan) (addr : PeerAddr) → mark_failure m addr ≡ some next → Step m next
  bans : (m : AddrMan) (addr : PeerAddr) (now : ℕ) → Step m (ban m addr now)
  cleans :
      (m : AddrMan) (now : ℕ) → Step m (record m { banned_ips = cleanup_bans m.banned_ips now })

pub data Reach (m : AddrMan) : AddrMan → Type 0 where
  here : Reach m m
  next : {u v : AddrMan} → Reach m u → Step u v → Reach m v

add-IsUnique :
    (m : AddrMan) (addr : PeerAddr) (now : ℕ)
    → IsUnique m.addr_list
    → IsUnique (add m addr now).addr_list
unfolding add
add-IsUnique m addr now u = elim (Bool-cases (is_banned m addr now || is_listed addr m.addr_list)) [
  | inl e ↦ rw e u
  | inr e ↦ rw e (append-IsUnique addr m.addr_list (ground arith) u)
]

none_absurd : {A B : Type 0} (a : A) → none ≡ some a → B
none_absurd a h = cc

some_inv : {A : Type 0} (a b : A) → some a ≡ some b → a ≡ b
some_inv a b h = cc

failed_at-IsUnique :
    (m after : AddrMan) (addr : PeerAddr) (found : Option PeerAddr)
    → failed_at m addr found ≡ some after
    → IsUnique m.addr_list
    → IsUnique after.addr_list
unfolding failed_at
failed_at-IsUnique m after addr none e u = subst (λ m. IsUnique m.addr_list) (some_inv m after e) u
failed_at-IsUnique m after addr (some x) e u = elim (Bool-cases (leb 10 (x.failures + 1))) [
  | inl full ↦ none_absurd after (rw full at e)
  | inr free ↦
      subst (λ m. IsUnique m.addr_list) (some_inv _ after (rw free at e))
        (change_first-IsUnique _ addr m.addr_list (λ a. (refl, refl)) u)
]

failed-IsUnique :
    (m after : AddrMan) (addr : PeerAddr)
    → mark_failure m addr ≡ some after
    → IsUnique m.addr_list
    → IsUnique after.addr_list
unfolding mark_failure
failed-IsUnique m after addr e u = failed_at-IsUnique m after addr _ e u

Step-IsUnique : {m after : AddrMan} → Step m after → IsUnique m.addr_list → IsUnique after.addr_list
unfolding mark_good mark_attempt ban
Step-IsUnique (adds m addr now) u = add-IsUnique m addr now u
Step-IsUnique (marks_good m addr now) u =
    change_first-IsUnique _ addr m.addr_list (λ a. (refl, refl)) u
Step-IsUnique (marks_attempt m addr now) u =
    change_first-IsUnique _ addr m.addr_list (λ a. (refl, refl)) u
Step-IsUnique (marks_failure m after addr e) u = failed-IsUnique m after addr e u
Step-IsUnique (bans m addr now) u = u
Step-IsUnique (cleans m now) u = u

-- In every state that the address manager reaches from one that lists each address once, each
-- address and port is listed at most once.
pub Reach-IsUnique :
    {m after : AddrMan} → IsUnique m.addr_list → Reach m after → IsUnique after.addr_list
Reach-IsUnique u here = u
Reach-IsUnique u (next r s) = Step-IsUnique s (Reach-IsUnique u r)
