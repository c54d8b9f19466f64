-- ===== src/Names/Unique.antt =====
-- What `remember_name` does to the registry.
use pi_secure.Prelude.{
  Bool-cases, Option-cases, Bytes, bytes_eq, bytes_eq_iff, bytes_eq_refl, ok, ◌≡◌, refl, sym, ◌∙◌,
  ◌≢◌, ◌⊎◌, inl, inr, Bool, true, false, none, some, List, [], ◌∷◌, ◌++◌, arith,
}
use pi_secure.Address.{fold_name, valid_shortname, is_long_address}
use pi_secure.Names.{
  NameRec, find_folded, find_name, find_address, change_folded, refreshed, has_other_name,
  remember_known, remember_name,
}
use pi_secure.Names.Find.{
  find_folded-append_found, find_folded_sound, find_folded-change, find_folded-append,
}
use pi_secure.Names.Registry.{
  IsRegistry, change-IsRegistry, append-IsRegistry, found-IsRegistry, address_of_name,
}

-- What a registered name promises.
pub record IsRemembered (names after : List NameRec) (name address : Bytes) : Type 0 where
  pub registry : IsRegistry after
  pub bound : (rec : NameRec) × (find_name name after ≡ some rec) × (rec.address ≡ address)
  pub others :
      (query : Bytes)
      → fold_name query ≢ fold_name name
      → find_name query after ≡ find_name query names

changed-IsRemembered :
    (names : List NameRec) (name address : Bytes) (changed rec : NameRec)
    → IsRegistry names
    → fold_name changed.name ≡ fold_name name
    → changed.address ≡ address
    → valid_shortname changed.name ≡ true
    → is_long_address address ≡ true
    → find_folded (fold_name name) names ≡ some rec
    → (rec.address ≡ address) ⊎ (find_address address names ≡ none)
    → IsRemembered names (change_folded (fold_name name) changed names) name address
unfolding find_name
changed-IsRemembered names name address changed rec reg same at valid long found free = record {
  registry =
      change-IsRegistry (fold_name name) changed names rec reg same valid (rw at long) found
        (rw at free);
  bound = (
    changed,
    find_folded-change (fold_name name) (fold_name name) changed names same
        ∙ rw (bytes_eq_refl (fold_name name), found),
    at,
  );
  others = λ query ne. ground (
    arith,
    find_folded-change (fold_name query) (fold_name name) changed names same,
    bytes_eq_iff (fold_name name) (fold_name query),
  );
}

appended-IsRemembered :
    (names : List NameRec) (new : NameRec)
    → IsRegistry names
    → find_folded (fold_name new.name) names ≡ none
    → find_address new.address names ≡ none
    → valid_shortname new.name ≡ true
    → is_long_address new.address ≡ true
    → IsRemembered names (names ++ (new ∷ [])) new.name new.address
unfolding find_name
appended-IsRemembered names new reg name_free address_free valid long = record {
  registry = append-IsRegistry names new reg name_free address_free valid long;
  bound = (
    new,
    find_folded-append (fold_name new.name) names new name_free
        ∙ rw (bytes_eq_refl (fold_name new.name)),
    refl,
  );
  others = λ query ne. elim (Option-cases (find_folded (fold_name query) names)) [
    | inl e ↦ ground (
      arith,
      find_folded-append (fold_name query) names new e,
      bytes_eq_iff (fold_name new.name) (fold_name query),
    )
    | inr (rec, e) ↦ find_folded-append_found (fold_name query) names new rec e ∙ sym e
  ];
}

remember_known-IsRemembered :
    (names : List NameRec) (name address kind txid : Bytes) (overwrite : Bool)
    (after : List NameRec)
    → IsRegistry names
    → valid_shortname name ≡ true
    → is_long_address address ≡ true
    → has_other_name name address names ≡ false
    → remember_known names name address kind txid overwrite ≡ ok after
    → IsRemembered names after name address
unfolding remember_known find_name refreshed
remember_known-IsRemembered names name address kind txid overwrite after reg valid long free h =
    elim (Option-cases (find_folded (fold_name name) names)) [
      | inl unknown ↦
          let address_free : find_address address names ≡ none =
            elim (address_of_name names name address reg free) [
              | inl e ↦ e
              | inr (rec, e, at) ↦ cc
            ] in
          let new : NameRec = record { name = name; address = address; kind = kind; txid = txid } in
          let result : names ++ (new ∷ []) ≡ after = ground arith in
          rw (← result) (appended-IsRemembered names new reg unknown address_free valid long)
      | inr (rec, known) ↦ elim (Bool-cases (bytes_eq rec.address address)) [
        | inl e ↦
            let kept = (bytes_eq_iff rec.address address).0 e in
            let result : change_folded (fold_name name) (refreshed rec kind txid) names ≡ after =
              ground arith in
            rw (← result) (
              changed-IsRemembered names name address (refreshed rec kind txid) rec reg
                (find_folded_sound (fold_name name) names rec known) kept
                (found-IsRegistry (fold_name name) names rec reg known).0 long known (inl kept))
        | inr e ↦
            let moved : NameRec = record {
              name = name;
              address = address;
              kind = kind;
              txid = txid;
            } in
            let address_free : find_address address names ≡ none =
              elim (address_of_name names name address reg free) [
                | inl none_found ↦ none_found
                | inr (r, found, at) ↦ ground (arith, bytes_eq_iff rec.address address)
              ] in
            let result : change_folded (fold_name name) moved names ≡ after = ground arith in
            rw (← result) (
              changed-IsRemembered names name address moved rec reg refl refl valid long known
                (inr address_free))
      ]
    ]

-- In a registry whose names are valid and unique up to case, and whose addresses are long and
-- unique, a name that is remembered is bound to its address, every other name keeps its record, and
-- the registry stays so.
pub remember_name-IsRemembered :
    (names : List NameRec) (name address kind txid : Bytes) (overwrite : Bool)
    (after : List NameRec)
    → IsRegistry names
    → remember_name names name address kind txid overwrite ≡ ok after
    → IsRemembered names after name address
unfolding remember_name
remember_name-IsRemembered names name address kind txid overwrite after reg h =
    remember_known-IsRemembered names name address kind txid overwrite after reg (ground arith)
      (ground arith) (ground arith) (ground arith)
