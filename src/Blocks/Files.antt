-- ===== src/Blocks/Files.antt =====
-- What an append to one of the files changes of it, and what it leaves.
use pi_secure.Prelude.{
  Option-cases, length, get_elem?, length-append, take, drop, Bytes, ℕ, zero, suc, ◌+◌, ◌*◌, ◌≤◌,
  ◌≡◌, refl, ap, ◌∙◌, ◌≢◌, inl, inr, none, some, List, [], ◌∷◌, ◌++◌, append-nil, arith, dec_lt,
  ℕ_discrete,
}
use pi_secure.Blocks.{BlockPos, append_file, read_u32, read_frame, read_at}

-- What a file holds; a file that is missing holds nothing.
abbrev pub content : List Bytes → ℕ → Bytes
content [] i = []
content (f ∷ files) zero = f
content (f ∷ files) (suc i) = content files i

pub content-beyond : (files : List Bytes) (i : ℕ) → length files ≤ i → content files i ≡ []
content-beyond [] i h = refl
content-beyond (f ∷ files) zero h = absurd (omega arith)
content-beyond (f ∷ files) (suc i) h = content-beyond files i (omega arith)

pub get_elem?-append_file_self :
    (files : List Bytes) (i : ℕ) (s : Bytes)
    → get_elem? (append_file files i s) i ≡ some (content files i ++ s)
unfolding append_file
get_elem?-append_file_self [] zero s = refl
get_elem?-append_file_self [] (suc i) s = get_elem?-append_file_self [] i s
get_elem?-append_file_self (f ∷ files) zero s = refl
get_elem?-append_file_self (f ∷ files) (suc i) s = get_elem?-append_file_self files i s

get_elem?-append_file_ne :
    (files : List Bytes) (i j : ℕ) (s f : Bytes)
    → i ≢ j
    → get_elem? files j ≡ some f
    → get_elem? (append_file files i s) j ≡ some f
unfolding append_file
get_elem?-append_file_ne [] i j s f ne h = cc
get_elem?-append_file_ne (x ∷ files) zero zero s f ne h = absurd (ne refl)
get_elem?-append_file_ne (x ∷ files) zero (suc j) s f ne h = h
get_elem?-append_file_ne (x ∷ files) (suc i) zero s f ne h = h
get_elem?-append_file_ne (x ∷ files) (suc i) (suc j) s f ne h =
    get_elem?-append_file_ne files i j s f (λ e. ne (ap suc e)) h

get_elem?-content :
    (files : List Bytes) (i : ℕ) (f : Bytes) → get_elem? files i ≡ some f → content files i ≡ f
get_elem?-content [] i f h = cc
get_elem?-content (x ∷ files) zero f h = ground arith
get_elem?-content (x ∷ files) (suc i) f h = get_elem?-content files i f h

pub content-append_file :
    (files : List Bytes) (i : ℕ) (s : Bytes)
    → content (append_file files i s) i ≡ content files i ++ s
content-append_file files i s =
    get_elem?-content (append_file files i s) i (content files i ++ s)
      (get_elem?-append_file_self files i s)

pub length-append_file :
    (files : List Bytes) (i : ℕ) (s : Bytes)
    → length files ≤ i + 1
    → length (append_file files i s) ≤ i + 1
unfolding append_file
length-append_file [] zero s h = omega arith
length-append_file [] (suc i) s h = omega (arith, length-append_file [] i s (omega arith))
length-append_file (f ∷ files) zero s h = omega arith
length-append_file (f ∷ files) (suc i) s h =
    omega (arith, length-append_file files i s (omega arith))

take-append_left : (n : ℕ) (s t : Bytes) → n ≤ length s → take n (s ++ t) ≡ take n s
take-append_left zero s t h = refl
take-append_left (suc n) [] t h = absurd (omega arith)
take-append_left (suc n) (x ∷ s) t h = ap (◌∷◌ x) (take-append_left n s t (omega arith))

-- Bytes behind a frame do not change what is read.
read_frame-append :
    (size : ℕ) (s t block : Bytes)
    → read_frame size s ≡ some block
    → read_frame size (s ++ t) ≡ some block
unfolding read_frame read_u32
read_frame-append size [] t block h = cc
read_frame-append size (a ∷ []) t block h = cc
read_frame-append size (a ∷ b ∷ []) t block h = cc
read_frame-append size (a ∷ b ∷ c ∷ []) t block h = cc
read_frame-append size (a ∷ b ∷ c ∷ d ∷ s) t block h =
    let len = a + 256 * b + 65_536 * c + 16_777_216 * d in
    elim (dec_lt (length s) len) [
      | yes short ↦ ground arith
      | no whole ↦ ground (arith, take-append_left len s t (omega arith), length-append s t)
    ]

read_frame-drop :
    (size n : ℕ) (s t block : Bytes)
    → read_frame size (drop n s) ≡ some block
    → read_frame size (drop n (s ++ t)) ≡ some block
read_frame-drop size zero s t block h = read_frame-append size s t block h
read_frame-drop size (suc n) [] t block h =
    absurd (unfold read_frame read_u32 in (let e : none ≡ some block = h in cc))
read_frame-drop size (suc n) (x ∷ s) t block h = read_frame-drop size n s t block h

get_elem?-append_file :
    (files : List Bytes) (i j : ℕ) (s f : Bytes)
    → get_elem? files j ≡ some f
    → (t : Bytes) × (get_elem? (append_file files i s) j ≡ some (f ++ t))
get_elem?-append_file files i j s f h = elim (ℕ_discrete i j) [
  | yes same ↦
      let there = get_elem?-append_file_self files i s in
      let held : content files i ≡ f = get_elem?-content files i f (rw same h) in
      (s, rw (← same) (rw held at there))
  | no other ↦ ([], get_elem?-append_file_ne files i j s f other h ∙ rw (append-nil f) refl)
]

pub read_at-file :
    (files : List Bytes) (p : BlockPos) (f : Bytes)
    → get_elem? files p.file ≡ some f
    → read_at files p ≡ read_frame p.size (drop p.offset f)
unfolding read_at
read_at-file files p f e = ground arith

read_at_inv :
    (files : List Bytes) (p : BlockPos) (block : Bytes)
    → read_at files p ≡ some block
    → (f : Bytes) × (get_elem? files p.file ≡ some f)
      × (read_frame p.size (drop p.offset f) ≡ some block)
unfolding read_at
read_at_inv files p block h = elim (Option-cases (get_elem? files p.file)) [
  | inl e ↦ ground arith
  | inr (f, e) ↦ (f, e, ground arith)
]

pub read_at-append_file :
    (files : List Bytes) (i : ℕ) (s : Bytes) (p : BlockPos) (block : Bytes)
    → read_at files p ≡ some block
    → read_at (append_file files i s) p ≡ some block
read_at-append_file files i s p block h =
    let (f, e, old) = read_at_inv files p block h in
    let (t, there) = get_elem?-append_file files i p.file s f e in
    read_at-file (append_file files i s) p (f ++ t) there
    ∙ read_frame-drop p.size p.offset f t block old
