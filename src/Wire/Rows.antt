-- ===== src/Wire/Rows.antt =====
-- The loops of `deserializeAddr`, `deserializeInv`, `deserializeGetHeaders` and
-- `deserializeHeaders`: so many rows of one size. What a row must satisfy is the record `RowCodec`.
use pi_secure.Prelude.{
  ltb, if◌then◌else◌, Bool-cases, length, length-append, Bytes, All, All-append_right, IsByte, ℕ,
  zero, suc, ◌+◌, ◌*◌, ◌≤◌, ◌<◌, ◌≡◌, refl, sym, ap, subst, ◌∙◌, ◌≢◌, inl, inr, true, false, List,
  [], ◌∷◌, ◌++◌, append_assoc, arith,
}
use pi_secure.Wire.{Parsed, done, refused, past_end, ◌>>=◌}
use pi_secure.Wire.Fields.{refused-ne-done, bind-ne-past_end, bind_inv, done_inv, pair_inv}

-- Each round: `return false` if the row is not there, then the fields of the row.
unfoldable pub read_rows {ℓ} :
    {A : Type ℓ} → ℕ → (Bytes → Parsed (A × Bytes)) → ℕ → Bytes → Parsed (List A × Bytes)
read_rows size row zero s = done ([], s)
read_rows size row (suc count) s =
    if ltb (length s) size
    then refused
    else (row s >>= λ (a, t). read_rows size row count t >>= λ (rows, u). done (a ∷ rows, u))

unfoldable pub write_rows {ℓ} : {A : Type ℓ} → (A → Bytes) → List A → Bytes
write_rows write [] = []
write_rows write (a ∷ rows) = write a ++ write_rows write rows

-- A way to write and to read a row.
pub record RowCodec {ℓ} (A : Type ℓ) : Type (ℓ ⊔ 1) where
  pub size : ℕ
  pub write : A → Bytes
  pub read : Bytes → Parsed (A × Bytes)
  pub IsRow : A → Type 0
  pub length_write : (a : A) → IsRow a → length (write a) ≡ size
  pub read_write : (a : A) (s : Bytes) → IsRow a → read (write a ++ s) ≡ done (a, s)
  pub read_sound :
      (s : Bytes) (a : A) (t : Bytes)
      → All IsByte s
      → read s ≡ done (a, t)
      → IsRow a × (s ≡ write a ++ t)
  pub read_takes :
      (s : Bytes)
      → size ≤ length s
      → (a : A) × ((t : Bytes) × ((read s ≡ done (a, t)) × (size + length t ≡ length s)))

module _ {ℓ} {A : Type ℓ} (c : RowCodec A) where
  row_there :
      (count : ℕ) (s : Bytes) (a : A) (t : Bytes) (rows : List A) (u : Bytes)
      → c.size ≤ length s
      → c.read s ≡ done (a, t)
      → read_rows c.size c.read count t ≡ done (rows, u)
      → read_rows c.size c.read (suc count) s ≡ done (a ∷ rows, u)
  unfolding read_rows
  row_there count s a t rows u there e e' =
      let fits : ltb (length s) c.size ≡ false = ground arith in rw fits (rw e (rw e' refl))

  row_short :
      (count : ℕ) (s : Bytes) → length s < c.size → read_rows c.size c.read (suc count) s ≡ refused
  unfolding read_rows
  row_short count s short = let lacks : ltb (length s) c.size ≡ true = ground arith in rw lacks

  -- Rows that are written read back.
  pub read_rows-write_rows :
      (rows : List A) (s : Bytes)
      → All c.IsRow rows
      → read_rows c.size c.read (length rows) (write_rows c.write rows ++ s) ≡ done (rows, s)
  unfolding write_rows
  read_rows-write_rows [] s h = unfold read_rows in refl
  read_rows-write_rows (a ∷ rows) s (ha, h) =
      let more : Bytes = write_rows c.write rows ++ s in
      let size = length-append (c.write a) more in
      let first =
        row_there (length rows) (c.write a ++ more) a more rows s
          (omega (arith, size, c.length_write a ha)) (c.read_write a more ha)
          (read_rows-write_rows rows s h) in
      rw append_assoc first

  pub length-write_rows :
      (rows : List A) → All c.IsRow rows → length (write_rows c.write rows) ≡ length rows * c.size
  unfolding write_rows
  length-write_rows [] h = omega arith
  length-write_rows (a ∷ rows) (ha, h) = omega (
    arith,
    length-append (c.write a) (write_rows c.write rows),
    c.length_write a ha,
    length-write_rows rows h,
  )

  rows_inv :
      (count : ℕ) (s : Bytes) (rows : List A) (u : Bytes)
      → read_rows c.size c.read (suc count) s ≡ done (rows, u)
      → (a : A) × ((t : Bytes) × ((rest : List A) × ((c.read s ≡ done (a, t))
              × ((read_rows c.size c.read count t ≡ done (rest, u)) × (rows ≡ a ∷ rest)))))
  unfolding read_rows
  rows_inv count s rows u h = elim (Bool-cases (ltb (length s) c.size)) [
    | inl e ↦ let impossible : refused ≡ done (rows, u) = rw e at h in refused-ne-done _ impossible
    | inr e ↦
        let ((a, t), (er, h')) = bind_inv (c.read s) _ (rows, u) (rw e at h) in
        let ((rest, v), (es, h'')) = bind_inv (read_rows c.size c.read count t) _ (rows, u) h' in
        let (e1, e2) = pair_inv (a ∷ rest) rows v u (done_inv _ _ h'') in
        (a, (t, (rest, (er, (es ∙ ap (λ v. done (rest, v)) e2, sym e1)))))
  ]

  -- What was read is what is written for those rows, and it was as many rows as asked for.
  pub read_rows_sound :
      (count : ℕ) (s : Bytes) (rows : List A) (t : Bytes)
      → All IsByte s
      → read_rows c.size c.read count s ≡ done (rows, t)
      → (length rows ≡ count) × (All c.IsRow rows × (s ≡ write_rows c.write rows ++ t))
  unfolding write_rows
  read_rows_sound zero s rows t bytes h =
      let (er, es) = pair_inv [] rows s t (done_inv _ _ (unfold read_rows in h)) in
      subst (λ rows. (length rows ≡ 0) × (All c.IsRow rows × (s ≡ write_rows c.write rows ++ t))) er
        (refl, (tt, es))
  read_rows_sound (suc count) s rows t bytes h =
      let (a, (u, (rest, (er, (es, e))))) = rows_inv count s rows t h in
      let (is, eq) = c.read_sound s a u bytes er in
      let bytes' = All-append_right IsByte (c.write a) u (subst (All IsByte) eq bytes) in
      let (len, (all, tail)) = read_rows_sound count u rest t bytes' es in
      subst
        (λ rows.
          (length rows ≡ suc count) × (All c.IsRow rows × (s ≡ write_rows c.write rows ++ t)))
        (sym e) (ap suc len, ((is, all), rw append_assoc (eq ∙ ap (λ x. c.write a ++ x) tail)))

  -- Reading rows never passes the end of the payload.
  pub read_rows-ne-past_end : (count : ℕ) (s : Bytes) → read_rows c.size c.read count s ≢ past_end
  unfolding read_rows
  read_rows-ne-past_end zero s = λ h. cc
  read_rows-ne-past_end (suc count) s = elim (Bool-cases (ltb (length s) c.size)) [
    | inl e ↦ rw e (λ h. cc)
    | inr e ↦
        let (a, (t, (er, len))) = c.read_takes s (ground arith) in
        rw e (
          rw er (
            bind-ne-past_end (read_rows c.size c.read count t) _ (read_rows-ne-past_end count t)
              (λ p h. cc)))
  ]
