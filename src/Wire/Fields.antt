-- ===== src/Wire/Fields.antt =====
-- The fields of messages: what is written reads back, what is read was written so, and a read of
-- bytes that are there does not pass the end.
use native.Mathlib.Nat.{pow-suc}
use pi_secure.Prelude.{
  if◌then◌else◌, length, Bytes, All, IsByte, ℕ, zero, suc, ◌+◌, ◌*◌, ◌/◌, ◌%◌, ◌^◌, ◌≤◌, ◌<◌, ◌≡◌,
  refl, sym, ap, ◌∙◌, ◌≢◌, Bool, true, false, [], ◌∷◌, ◌++◌, arith,
}
use pi_secure.Tx.Fields.{le_bytes}
use pi_secure.Wire.{Parsed, done, refused, past_end, ◌>>=◌, read_le, copy_bytes}

module _ {ℓ κ} {A : Type ℓ} {B : Type κ} where
  -- A chain goes on after a step that is done.
  pub bind_done : (p : Parsed A) (next : A → Parsed B) (a : A) → p ≡ done a → (p >>= next) ≡ next a
  bind_done p next a h = ap (λ p. p >>= next) h

  -- A chain that is done had every step done.
  pub bind_inv :
      (p : Parsed A) (next : A → Parsed B) (b : B)
      → (p >>= next) ≡ done b
      → (a : A) × ((p ≡ done a) × (next a ≡ done b))
  bind_inv (done a) next b h = (a, (refl, h))
  bind_inv refused next b h = cc
  bind_inv past_end next b h = cc

module _ {ℓ κ} {A : Type ℓ} {B : Type κ} where
  pub bind-ne-past_end :
      (p : Parsed A) (next : A → Parsed B)
      → p ≢ past_end
      → ((a : A) → next a ≢ past_end)
      → (p >>= next) ≢ past_end
  bind-ne-past_end (done a) next h hn = hn a
  bind-ne-past_end refused next h hn = λ e. cc
  bind-ne-past_end past_end next h hn = absurd (h refl)

pub refused-ne-done {ℓ κ} : {A : Type ℓ} {B : Type κ} (a : A) → refused ≡ done a → B
refused-ne-done a h = cc

pub done_inv {ℓ} : {A : Type ℓ} (a b : A) → done a ≡ done b → a ≡ b
done_inv a b h = cc

pub pair_inv {ℓ κ} :
    {A : Type ℓ} {B : Type κ} (a c : A) (b d : B)
    → ◌≡◌ {A = A × B} (a, b) (c, d)
    → (a ≡ c) × (b ≡ d)
pair_inv a c b d h = (ap (λ p. p.0) h, ap (λ p. p.1) h)

pub read_le-le_bytes :
    (n v : ℕ) (s : Bytes) → v < 256 ^ n → read_le n (le_bytes n v ++ s) ≡ done (v, s)
unfolding read_le le_bytes
read_le-le_bytes zero v s small = let e : v ≡ 0 = omega arith in rw e
read_le-le_bytes (suc n) v s small =
    let ih = read_le-le_bytes n (v / 256) s (omega (arith, pow-suc 256 n)) in
    let e : v % 256 + 256 * (v / 256) ≡ v = omega arith in rw (ih, e)

pub length-le_bytes : (n v : ℕ) → length (le_bytes n v) ≡ n
unfolding le_bytes
length-le_bytes zero v = refl
length-le_bytes (suc n) v = ap suc (length-le_bytes n (v / 256))

pub read_le_takes :
    (n : ℕ) (s : Bytes)
    → n ≤ length s
    → (v : ℕ) × ((t : Bytes) × ((read_le n s ≡ done (v, t)) × (n + length t ≡ length s)))
unfolding read_le
read_le_takes zero s h = (0, (s, (refl, omega arith)))
read_le_takes (suc n) [] h = absurd (omega arith)
read_le_takes (suc n) (b ∷ s) h =
    let (v, (t, (e, len))) = read_le_takes n s (omega arith) in
    (b + 256 * v, (t, (rw e, omega arith)))

pub copy_bytes-append : (h s : Bytes) → copy_bytes (length h) (h ++ s) ≡ done (h, s)
unfolding copy_bytes
copy_bytes-append [] s = refl
copy_bytes-append (b ∷ h) s = rw (copy_bytes-append h s)

pub copy_bytes_takes :
    (n : ℕ) (s : Bytes)
    → n ≤ length s
    → (h : Bytes) × ((t : Bytes) × ((copy_bytes n s ≡ done (h, t)) × (n + length t ≡ length s)))
unfolding copy_bytes
copy_bytes_takes zero s h = ([], (s, (refl, omega arith)))
copy_bytes_takes (suc n) [] h = absurd (omega arith)
copy_bytes_takes (suc n) (b ∷ s) h =
    let (d, (t, (e, len))) = copy_bytes_takes n s (omega arith) in (b ∷ d, (t, (rw e, omega arith)))

-- What the read took is what is written for the value that it gives.
pub read_le_sound :
    (n : ℕ) (s : Bytes) (v : ℕ) (t : Bytes)
    → All IsByte s
    → read_le n s ≡ done (v, t)
    → (v < 256 ^ n) × (s ≡ le_bytes n v ++ t)
unfolding read_le le_bytes
read_le_sound zero s v t bytes h =
    let (ev, es) = pair_inv 0 v s t (done_inv _ _ h) in (omega arith, es)
read_le_sound (suc n) [] v t bytes h = cc
read_le_sound (suc n) (b ∷ s) v t (low, bytes) h =
    let ((w, u), (e, e')) = bind_inv (read_le n s) (λ (v, t). done (b + 256 * v, t)) (v, t) h in
    let (ev, et) = pair_inv (b + 256 * w) v u t (done_inv _ _ e') in
    let (small, es) = read_le_sound n s w u bytes e in
    let rest : v / 256 ≡ w = omega arith in
    let first : v % 256 ≡ b = omega arith in
    (omega (arith, pow-suc 256 n), rw (first, rest, es, et) refl)

pub copy_bytes_sound :
    (n : ℕ) (s h t : Bytes) → copy_bytes n s ≡ done (h, t) → (length h ≡ n) × (s ≡ h ++ t)
unfolding copy_bytes
copy_bytes_sound zero s h t e =
    let (eh, es) = pair_inv [] h s t (done_inv _ _ e) in
    (ap length (sym eh), es ∙ ap (λ d. d ++ t) eh)
copy_bytes_sound (suc n) [] h t e = cc
copy_bytes_sound (suc n) (b ∷ s) h t e =
    let ((d, u), (c, c')) = bind_inv (copy_bytes n s) (λ (d, t). done (b ∷ d, t)) (h, t) e in
    let (eh, et) = pair_inv (b ∷ d) h u t (done_inv _ _ c') in
    let (len, es) = copy_bytes_sound n s d u c in
    (ap length (sym eh) ∙ ap suc len, rw (es, et, ← eh) refl)

-- Behind a guard that refuses, and in front of one that refuses the rest.
pub guard_inv {ℓ} :
    {A : Type ℓ} (test : Bool) (p : Parsed A) (a : A)
    → (if test then refused else p) ≡ done a
    → (test ≡ false) × (p ≡ done a)
guard_inv true p a h = refused-ne-done a h
guard_inv false p a h = (refl, h)

pub kept_inv {ℓ} :
    {A : Type ℓ} (test : Bool) (p : Parsed A) (a : A)
    → (if test then p else refused) ≡ done a
    → (test ≡ true) × (p ≡ done a)
kept_inv true p a h = (refl, h)
kept_inv false p a h = refused-ne-done a h
