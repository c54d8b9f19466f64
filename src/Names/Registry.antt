-- ===== src/Names/Registry.antt =====
-- The registry keeps names unique up to case, and addresses unique.
use pi_secure.Prelude.{
  Bool-cases, Option-cases, Bytes, bytes_eq, bytes_eq_iff, bytes_eq_refl, ◌≡◌, refl, ◌≢◌, ◌⊎◌, inl,
  inr, true, false, none, some, List, [], ◌∷◌, ◌++◌, arith,
}
use pi_secure.Address.{fold_name, valid_shortname, is_long_address}
use pi_secure.Names.{NameRec, find_folded, find_address, change_folded, has_other_name}
use pi_secure.Names.Find.{
  find_address_sound, find_folded-change, find_address-change, find_folded-append,
  find_address-append, find_address-of_name,
}

-- No two records have the same folded name or the same address, and each has a valid name and a long
-- address.
abbrev pub IsRegistry : List NameRec → Type 0
IsRegistry [] = Unit
IsRegistry (r ∷ names) =
    (find_folded (fold_name r.name) names ≡ none)
    × (find_address r.address names ≡ none)
    × (valid_shortname r.name ≡ true)
    × (is_long_address r.address ≡ true)
    × IsRegistry names

pub change-IsRegistry :
    (folded : Bytes) (changed : NameRec) (names : List NameRec) (rec : NameRec)
    → IsRegistry names
    → fold_name changed.name ≡ folded
    → valid_shortname changed.name ≡ true
    → is_long_address changed.address ≡ true
    → find_folded folded names ≡ some rec
    → (rec.address ≡ changed.address) ⊎ (find_address changed.address names ≡ none)
    → IsRegistry (change_folded folded changed names)
unfolding change_folded find_folded find_address
change-IsRegistry folded changed [] rec reg same valid long found free = tt
change-IsRegistry folded changed (r ∷ names) rec (one, lone, rv, rl, reg) same valid long found
      free =
    elim (Bool-cases (bytes_eq (fold_name r.name) folded)) [
      | inl here ↦
          let is_rec : r ≡ rec = ground arith in
          let e = (bytes_eq_iff (fold_name r.name) folded).0 here in
          let name_free : find_folded (fold_name changed.name) names ≡ none = rw (same, ← e) one in
          let address_free : find_address changed.address names ≡ none = elim free [
            | inl kept ↦ rw (← kept, ← is_rec) lone
            | inr new ↦ ground arith
          ] in
          rw here (name_free, address_free, valid, long, reg)
      | inr there ↦
          let rest : find_folded folded names ≡ some rec = ground arith in
          let by_address = find_address-of_name folded names rec rest in
          let other : changed.address ≢ r.address = elim free [
            | inl kept ↦ λ e. by_address (rw (kept, e) lone)
            | inr new ↦ λ e. ground (arith, bytes_eq_iff r.address changed.address)
          ] in
          let free' : (rec.address ≡ changed.address)
              ⊎ (find_address changed.address names ≡ none) =
            elim free [ inl kept ↦ inl kept | inr new ↦ inr (ground arith) ] in
          let ih = change-IsRegistry folded changed names rec reg same valid long rest free' in
          let name_free : find_folded (fold_name r.name) (change_folded folded changed names)
              ≡ none =
            ground (
              arith,
              find_folded-change (fold_name r.name) folded changed names same,
              bytes_eq_iff folded (fold_name r.name),
              bytes_eq_iff (fold_name r.name) folded,
            ) in
          let address_free = find_address-change r.address folded changed names other lone in
          rw there (name_free, address_free, rv, rl, ih)
    ]

pub append-IsRegistry :
    (names : List NameRec) (new : NameRec)
    → IsRegistry names
    → find_folded (fold_name new.name) names ≡ none
    → find_address new.address names ≡ none
    → valid_shortname new.name ≡ true
    → is_long_address new.address ≡ true
    → IsRegistry (names ++ (new ∷ []))
unfolding find_folded find_address
append-IsRegistry [] new reg name_free address_free valid long = (refl, refl, valid, long, tt)
append-IsRegistry (r ∷ names) new (one, lone, rv, rl, reg) name_free address_free valid long =
    let ih = append-IsRegistry names new reg (ground arith) (ground arith) valid long in
    let name_kept : find_folded (fold_name r.name) (names ++ (new ∷ [])) ≡ none = ground (
      arith,
      find_folded-append (fold_name r.name) names new one,
      bytes_eq_iff (fold_name new.name) (fold_name r.name),
      bytes_eq_iff (fold_name r.name) (fold_name new.name),
    ) in
    let other : new.address ≢ r.address = λ e. ground (arith, bytes_eq_iff r.address new.address) in
    (name_kept, find_address-append r.address names new lone other, rv, rl, ih)

pub found-IsRegistry :
    (folded : Bytes) (names : List NameRec) (rec : NameRec)
    → IsRegistry names
    → find_folded folded names ≡ some rec
    → (valid_shortname rec.name ≡ true) × (is_long_address rec.address ≡ true)
unfolding find_folded
found-IsRegistry folded [] rec reg h = cc
found-IsRegistry folded (r ∷ names) rec (one, lone, rv, rl, reg) h =
    elim (Bool-cases (bytes_eq (fold_name r.name) folded)) [
      | inl e ↦ let same : r ≡ rec = ground arith in rw (← same) (rv, rl)
      | inr e ↦ found-IsRegistry folded names rec reg (ground arith)
    ]

-- What the test on the address leaves.
other_name_free :
    (name address : Bytes) (names : List NameRec) (rec : NameRec)
    → has_other_name name address names ≡ false
    → find_address address names ≡ some rec
    → fold_name rec.name ≡ fold_name name
unfolding has_other_name
other_name_free name address names rec h found =
    ground (arith, bytes_eq_iff (fold_name rec.name) (fold_name name))

-- The record of an address is the record of its name.
name_of_address :
    (address : Bytes) (names : List NameRec) (rec : NameRec)
    → IsRegistry names
    → find_address address names ≡ some rec
    → find_folded (fold_name rec.name) names ≡ some rec
unfolding find_folded find_address
name_of_address address [] rec reg h = cc
name_of_address address (r ∷ names) rec (one, lone, rv, rl, reg) h =
    elim (Bool-cases (bytes_eq r.address address)) [
      | inl e ↦
          let same : r ≡ rec = ground arith in
          rw same (rw (bytes_eq_refl (fold_name rec.name)) refl)
      | inr e ↦
          let ih = name_of_address address names rec reg (ground arith) in
          ground (arith, ih, bytes_eq_iff (fold_name r.name) (fold_name rec.name))
    ]

pub address_of_name :
    (names : List NameRec) (name address : Bytes)
    → IsRegistry names
    → has_other_name name address names ≡ false
    → (find_address address names ≡ none)
      ⊎ ((rec : NameRec) × (find_folded (fold_name name) names ≡ some rec)
          × (rec.address ≡ address))
address_of_name names name address reg free = elim (Option-cases (find_address address names)) [
  | inl e ↦ inl e
  | inr (rec, e) ↦
      let same = other_name_free name address names rec free e in
      inr (
        rec,
        rw same at (name_of_address address names rec reg e),
        find_address_sound address names rec e,
      )
]
