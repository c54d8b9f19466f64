-- ===== src/Wire/VarInt.antt =====
-- Counts of variable width, and texts behind their length.
use pi_secure.Prelude.{
  ltb, leb, ◌==◌, if◌then◌else◌, leb→le, Bool-cases, length, length-append, Bytes, u64_mod, All,
  All-append_right, IsByte, ℕ, ◌+◌, ◌≤◌, ◌<◌, ◌≡◌, refl, subst, ◌∙◌, inl, inr, Bool, true, false,
  ◌&&◌, [], ◌∷◌, ◌++◌, append_assoc, arith,
}
use pi_secure.Tx.Fields.{le_bytes}
use pi_secure.Wire.{
  Parsed, done, write_uint32, write_uint64, write_var_int, write_string, read_le, read_uint32,
  read_uint64, read_var_int, text_of, read_string,
}
use pi_secure.Wire.Fields.{
  bind_done, read_le-le_bytes, length-le_bytes, read_le_takes, copy_bytes-append, copy_bytes_takes,
  read_le_sound, pair_inv, done_inv,
}

length-le_bytes_more : (n v : ℕ) (s : Bytes) → length (le_bytes n v ++ s) ≡ n + length s
length-le_bytes_more n v s = omega (arith, length-append (le_bytes n v) s, length-le_bytes n v)

-- A count below 2^64 reads back, whatever follows it.
pub read_var_int-write_var_int :
    (v : ℕ) (s : Bytes) → v < u64_mod → read_var_int (write_var_int v ++ s) ≡ done (v, s)
unfolding read_var_int write_var_int write_uint32 write_uint64 read_uint32 read_uint64
read_var_int-write_var_int v s small = ground (
  arith,
  read_le-le_bytes 2 v s,
  read_le-le_bytes 4 v s,
  read_le-le_bytes 8 v s,
  length-le_bytes_more 2 v s,
  length-le_bytes_more 4 v s,
  length-le_bytes_more 8 v s,
)

-- A read that is done and leaves no more than there was.
abbrev pub IsRead {ℓ} : {A : Type ℓ} → Bytes → Parsed (A × Bytes) → Type ℓ
IsRead {A} s p = (v : A) × ((t : Bytes) × ((p ≡ done (v, t)) × (length t ≤ length s)))

if_both {ℓ κ} :
    {A : Type ℓ} (P : A → Type κ) (test : Bool) (x y : A)
    → (test ≡ true → P x)
    → P y
    → P (if test then x else y)
if_both P true x y hx hy = hx refl
if_both P false x y hx hy = hy

read_le-IsRead : (n first : ℕ) (s : Bytes) → n ≤ length s → IsRead (first ∷ s) (read_le n s)
read_le-IsRead n first s enough =
    let (v, (t, (e, len))) = read_le_takes n s enough in (v, (t, (e, omega arith)))

as_is : (v first : ℕ) (s : Bytes) → IsRead (first ∷ s) (done (v, s))
as_is v first s = (v, (s, (refl, omega arith)))

and_right : (a b : Bool) → (a && b) ≡ true → b ≡ true
and_right a b h = ground arith

-- Reading a count never passes the end of the payload.
pub read_var_int-IsRead : (s : Bytes) → IsRead s (read_var_int s)
unfolding read_var_int read_uint32 read_uint64
read_var_int-IsRead [] = (0, ([], (refl, omega arith)))
read_var_int-IsRead (first ∷ s) =
    let fits = λ (n : ℕ) (m : ℕ) (h : (first == m && leb n (length s)) ≡ true).
      read_le-IsRead n first s (leb→le n (length s) (and_right (first == m) _ h)) in
    if_both (IsRead (first ∷ s)) _ _ _ (λ _. as_is first first s)
      (if_both (IsRead (first ∷ s)) _ _ _ (fits 2 0xfd) (
        if_both (IsRead (first ∷ s)) _ _ _ (fits 4 0xfe)
          (if_both (IsRead (first ∷ s)) _ _ _ (fits 8 0xff) (as_is 0 first s))))

text_of-IsRead : (len : ℕ) (s : Bytes) → IsRead s (text_of len s)
unfolding text_of
text_of-IsRead len s = elim (Bool-cases (ltb (length s) len)) [
  | inl e ↦ rw e ([], (s, (refl, omega arith)))
  | inr e ↦
      let (d, (t, (c, l))) = copy_bytes_takes len s (ground arith) in
      rw e (d, (t, (c, omega arith)))
]

-- Reading a text never passes the end of the payload, whatever length stands in front of it.
pub read_string-IsRead : (s : Bytes) → IsRead s (read_string s)
unfolding read_string
read_string-IsRead s =
    let (len, (t, (e, l))) = read_var_int-IsRead s in
    let (d, (u, (c, l'))) = text_of-IsRead len t in
    (d, (u, (bind_done (read_var_int s) (λ (len, t). text_of len t) (len, t) e ∙ c, omega arith)))

text_of-append : (str s : Bytes) → text_of (length str) (str ++ s) ≡ done (str, s)
unfolding text_of
text_of-append str s =
    let fits : ltb (length (str ++ s)) (length str) ≡ false = ground (arith, length-append str s) in
    rw fits (copy_bytes-append str s)

-- A text of fewer than 2^64 bytes reads back, whatever follows it.
pub read_string-write_string :
    (str s : Bytes) → length str < u64_mod → read_string (write_string str ++ s) ≡ done (str, s)
unfolding read_string write_string
read_string-write_string str s small =
    let count = read_var_int-write_var_int (length str) (str ++ s) small in
    rw append_assoc (
      bind_done (read_var_int (write_var_int (length str) ++ (str ++ s)))
        (λ (len, t). text_of len t) (length str, str ++ s) count
      ∙ text_of-append str s)

-- Behind a count stand bytes of the payload.
LeavesBytes : Parsed (ℕ × Bytes) → Type 0
LeavesBytes p = (v : ℕ) (t : Bytes) → p ≡ done (v, t) → All IsByte t

read_le-LeavesBytes : (n : ℕ) (s : Bytes) → All IsByte s → LeavesBytes (read_le n s)
unfolding LeavesBytes
read_le-LeavesBytes n s bytes v t e =
    let (_, c) = read_le_sound n s v t bytes e in
    All-append_right IsByte (le_bytes n v) t (subst (All IsByte) c bytes)

done-LeavesBytes : (w : ℕ) (s : Bytes) → All IsByte s → LeavesBytes (done (w, s))
unfolding LeavesBytes
done-LeavesBytes w s bytes v t e = subst (All IsByte) (pair_inv w v s t (done_inv _ _ e)).1 bytes

pub read_var_int-LeavesBytes :
    (s : Bytes) (v : ℕ) (t : Bytes) → All IsByte s → read_var_int s ≡ done (v, t) → All IsByte t
unfolding read_var_int read_uint32 read_uint64 LeavesBytes
read_var_int-LeavesBytes [] v t bytes e = done-LeavesBytes 0 [] tt v t e
read_var_int-LeavesBytes (first ∷ s) v t (low, bytes) e =
    let le = λ (n : ℕ). read_le-LeavesBytes n s bytes in
    let both = if_both LeavesBytes in
    both _ _ _ (λ _. done-LeavesBytes first s bytes)
      (both _ _ _ (λ _. le 2)
        (both _ _ _ (λ _. le 4) (both _ _ _ (λ _. le 8) (done-LeavesBytes 0 s bytes))))
      v t e

-- A count takes a byte at least.
pub length-write_var_int : (v : ℕ) → 1 ≤ length (write_var_int v)
unfolding write_var_int
length-write_var_int v = ground (arith)
