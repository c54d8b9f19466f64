-- ===== src/Names/Find.antt =====
-- The laws of the searches in the registry.
use pi_secure.Prelude.{
  if◌then◌else◌, Bool-cases, Bytes, bytes_eq, bytes_eq_iff, bytes_eq_refl, ◌≡◌, refl, ◌≢◌, inl, inr,
  Bool, true, false, ◌&&◌, Option, none, some, List, [], ◌∷◌, ◌++◌, arith,
}
use pi_secure.Address.{fold_name}
use pi_secure.Names.{NameRec, find_folded, find_address, change_folded}

abbrev pub is_some : Option NameRec → Bool
is_some none = false
is_some (some rec) = true

pub find_folded_sound :
    (folded : Bytes) (names : List NameRec) (rec : NameRec)
    → find_folded folded names ≡ some rec
    → fold_name rec.name ≡ folded
unfolding find_folded
find_folded_sound folded [] rec h = cc
find_folded_sound folded (r ∷ names) rec h =
    elim (Bool-cases (bytes_eq (fold_name r.name) folded)) [
      | inl e ↦
          let same : r ≡ rec = ground arith in
          rw (← same) ((bytes_eq_iff (fold_name r.name) folded).0 e)
      | inr e ↦ find_folded_sound folded names rec (ground arith)
    ]

pub find_address_sound :
    (address : Bytes) (names : List NameRec) (rec : NameRec)
    → find_address address names ≡ some rec
    → rec.address ≡ address
unfolding find_address
find_address_sound address [] rec h = cc
find_address_sound address (r ∷ names) rec h = elim (Bool-cases (bytes_eq r.address address)) [
  | inl e ↦ let same : r ≡ rec = ground arith in rw (← same) ((bytes_eq_iff r.address address).0 e)
  | inr e ↦ find_address_sound address names rec (ground arith)
]

-- A change of one record is seen under its own name only.
pub find_folded-change :
    (key folded : Bytes) (changed : NameRec) (names : List NameRec)
    → fold_name changed.name ≡ folded
    → find_folded key (change_folded folded changed names) ≡ (
        if bytes_eq folded key && is_some (find_folded folded names)
        then some changed
        else find_folded key names)
unfolding find_folded change_folded
find_folded-change key folded changed [] same = ground arith
find_folded-change key folded changed (r ∷ names) same =
    let ih = find_folded-change key folded changed names same in
    ground (
      arith,
      ih,
      bytes_eq_iff (fold_name r.name) folded,
      bytes_eq_iff (fold_name r.name) key,
      bytes_eq_iff folded key,
    )

pub find_address-change :
    (address folded : Bytes) (changed : NameRec) (names : List NameRec)
    → changed.address ≢ address
    → find_address address names ≡ none
    → find_address address (change_folded folded changed names) ≡ none
unfolding find_address change_folded
find_address-change address folded changed [] other h = refl
find_address-change address folded changed (r ∷ names) other h =
    let ih = find_address-change address folded changed names other in
    ground (arith, ih, bytes_eq_iff changed.address address)

pub find_folded-append :
    (key : Bytes) (names : List NameRec) (new : NameRec)
    → find_folded key names ≡ none
    → find_folded key (names ++ (new ∷ []))
      ≡ (if bytes_eq (fold_name new.name) key then some new else none)
unfolding find_folded
find_folded-append key [] new h = refl
find_folded-append key (r ∷ names) new h = ground (arith, find_folded-append key names new)

pub find_folded-append_found :
    (key : Bytes) (names : List NameRec) (new rec : NameRec)
    → find_folded key names ≡ some rec
    → find_folded key (names ++ (new ∷ [])) ≡ some rec
unfolding find_folded
find_folded-append_found key [] new rec h = cc
find_folded-append_found key (r ∷ names) new rec h =
    ground (arith, find_folded-append_found key names new rec)

pub find_address-append :
    (address : Bytes) (names : List NameRec) (new : NameRec)
    → find_address address names ≡ none
    → new.address ≢ address
    → find_address address (names ++ (new ∷ [])) ≡ none
unfolding find_address
find_address-append address [] new h other = ground (arith, bytes_eq_iff new.address address)
find_address-append address (r ∷ names) new h other =
    ground (arith, find_address-append address names new)

-- The record of a name is also found by an address that is its own.
pub find_address-of_name :
    (folded : Bytes) (names : List NameRec) (rec : NameRec)
    → find_folded folded names ≡ some rec
    → find_address rec.address names ≢ none
unfolding find_folded find_address
find_address-of_name folded [] rec h = λ e. cc
find_address-of_name folded (r ∷ names) rec h =
    elim (Bool-cases (bytes_eq (fold_name r.name) folded)) [
      | inl e ↦ λ none_found. ground (arith, bytes_eq_refl rec.address)
      | inr e ↦
          let ih = find_address-of_name folded names rec (ground arith) in
          λ none_found. ground arith
    ]
