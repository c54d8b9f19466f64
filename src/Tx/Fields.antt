-- ===== src/Tx/Fields.antt =====
-- cpp/pisecured/src/chain_rpc.cpp: `append_u16`, `append_u32`, `append_u64`, least byte first.
use native.Mathlib.Nat.{pow-suc}
use pi_secure.Prelude.{
  length, Bytes, u64_mod, u32_mod, ℕ, zero, suc, ◌/◌, ◌%◌, ◌^◌, ◌<◌, ◌≡◌, refl, ap₂, [], ◌∷◌, ◌++◌,
  arith,
}

-- The `n` low bytes of `v`, least first.
unfoldable pub le_bytes : ℕ → ℕ → Bytes
le_bytes zero v = []
le_bytes (suc n) v = (v % 256) ∷ le_bytes n (v / 256)

unfoldable pub u16_bytes : ℕ → Bytes
unfolding le_bytes
u16_bytes v = le_bytes 2 v

unfoldable pub u32_bytes : ℕ → Bytes
unfolding le_bytes
u32_bytes v = le_bytes 4 v

unfoldable pub u64_bytes : ℕ → Bytes
unfolding le_bytes
u64_bytes v = le_bytes 8 v

-- A field of fixed width in front of two equal byte strings is the same in both.
pub cons_cancel : (a b : ℕ) (x y : Bytes) → a ∷ x ≡ b ∷ y → (a ≡ b) × (x ≡ y)
cons_cancel a b x y h = (cc, cc)

pub append_cancel : (s t x y : Bytes) → length s ≡ length t → s ++ x ≡ t ++ y → (s ≡ t) × (x ≡ y)
append_cancel [] [] x y len h = (refl, h)
append_cancel [] (b ∷ t) x y len h = absurd (omega arith)
append_cancel (a ∷ s) [] x y len h = absurd (omega arith)
append_cancel (a ∷ s) (b ∷ t) x y len h =
    let (e, r) = cons_cancel a b (s ++ x) (t ++ y) h in
    let (e', r') = append_cancel s t x y (omega arith) r in (ap₂ ◌∷◌ e e', r')

le_bytes_cancel :
    (n a b : ℕ) (x y : Bytes)
    → a < 256 ^ n
    → b < 256 ^ n
    → le_bytes n a ++ x ≡ le_bytes n b ++ y
    → (a ≡ b) × (x ≡ y)
unfolding le_bytes
le_bytes_cancel zero a b x y ha hb h = (omega arith, h)
le_bytes_cancel (suc n) a b x y ha hb h =
    let (low, rest) = cons_cancel _ _ _ _ h in
    let e = pow-suc 256 n in
    let (high, tail) =
      le_bytes_cancel n (a / 256) (b / 256) x y (omega (arith, e)) (omega (arith, e)) rest in
    (omega arith, tail)

pub u16_cancel :
    (a b : ℕ) (x y : Bytes)
    → a < 2 ^ 16
    → b < 2 ^ 16
    → u16_bytes a ++ x ≡ u16_bytes b ++ y
    → (a ≡ b) × (x ≡ y)
unfolding u16_bytes
u16_cancel a b x y ha hb h = le_bytes_cancel 2 a b x y ha hb h

pub u32_cancel :
    (a b : ℕ) (x y : Bytes)
    → a < u32_mod
    → b < u32_mod
    → u32_bytes a ++ x ≡ u32_bytes b ++ y
    → (a ≡ b) × (x ≡ y)
unfolding u32_bytes
u32_cancel a b x y ha hb h = le_bytes_cancel 4 a b x y ha hb h

pub u64_cancel :
    (a b : ℕ) (x y : Bytes)
    → a < u64_mod
    → b < u64_mod
    → u64_bytes a ++ x ≡ u64_bytes b ++ y
    → (a ≡ b) × (x ≡ y)
unfolding u64_bytes
u64_cancel a b x y ha hb h = le_bytes_cancel 8 a b x y ha hb h
