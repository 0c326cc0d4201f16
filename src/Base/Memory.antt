-- ===== src/Base/Memory.antt =====
-- Bytes at addresses, as `memcpy` and raw pointers see them. An address beyond an object is a
-- place that the source must not touch; the theorems about pages show that it does not.
use microsql.Base.{
  ℕ, zero, suc, ◌+◌, ◌-◌, ◌*◌, ◌/◌, ◌%◌, ◌≤◌, ◌<◌, ◌≡◌, refl, ap, ◌∙◌, ◌⊎◌, ◌&&◌, List, [], ◌∷◌,
  ◌++◌, arith, ltb, leb, if◌then◌else◌, length, get_or, take,
}

abbrev pub Memory : Type 0
Memory = ℕ → ℕ

-- memcpy(m + off, src, n)
unfoldable pub memcpy : Memory → ℕ → List ℕ → ℕ → Memory
memcpy m off src n a = if leb off a && ltb a (off + n) then get_or src (a - off) 0 else m a

-- The n bytes from `off` on.
unfoldable pub read_bytes : Memory → ℕ → ℕ → List ℕ
read_bytes m off zero = []
read_bytes m off (suc n) = m off ∷ read_bytes m (off + 1) n

-- A little-endian `uint16_t`.
unfoldable pub read16 : Memory → ℕ → ℕ
read16 m off = m off + 256 * m (off + 1)

unfoldable pub write16 : Memory → ℕ → ℕ → Memory
unfolding memcpy
write16 m off v = memcpy m off (v % 256 ∷ v / 256 % 256 ∷ []) 2

-- A byte.
abbrev pub IsByte : ℕ → Type 0
IsByte b = b < 256

module _ (m : Memory) (off : ℕ) (src : List ℕ) (n a : ℕ) where
  pub memcpy_inside : off ≤ a → a < off + n → memcpy m off src n a ≡ get_or src (a - off) 0
  unfolding memcpy
  memcpy_inside h k = ground arith

  pub memcpy_outside : (a < off) ⊎ (off + n ≤ a) → memcpy m off src n a ≡ m a
  unfolding memcpy
  memcpy_outside h = ground arith

-- Two memories that agree on a range read alike there.
pub read_bytes-congr :
    (m m' : Memory) (off n : ℕ)
    → ((a : ℕ) → off ≤ a → a < off + n → m' a ≡ m a)
    → read_bytes m' off n ≡ read_bytes m off n
unfolding read_bytes
read_bytes-congr m m' off zero h = refl
read_bytes-congr m m' off (suc n) h = cc (
  h off (omega arith) (omega arith),
  read_bytes-congr m m' (off + 1) n (λ a p q. h a (omega arith) (omega arith)),
)

pub length-read_bytes : (m : Memory) (off n : ℕ) → length (read_bytes m off n) ≡ n
unfolding read_bytes
length-read_bytes m off zero = refl
length-read_bytes m off (suc n) = ap suc (length-read_bytes m (off + 1) n)

-- A memory that holds `src` from `off` on gives it back.
pub read_bytes-source :
    (m : Memory) (off : ℕ) (src : List ℕ) (n : ℕ)
    → n ≤ length src
    → ((i : ℕ) → i < n → m (off + i) ≡ get_or src i 0)
    → read_bytes m off n ≡ take n src
unfolding read_bytes
read_bytes-source m off src zero h f = refl
read_bytes-source m off [] (suc n) h f = absurd (omega arith)
read_bytes-source m off (x ∷ src) (suc n) h f = cc (
  ap m (let e : off + 0 ≡ off = omega arith in e),
  f 0 (omega arith),
  read_bytes-source m (off + 1) src n (omega arith) (λ i p.
      ap m (let e : off + 1 + i ≡ off + suc i = omega arith in e) ∙ f (suc i) (omega arith)),
)

pub read_bytes-memcpy :
    (m : Memory) (off : ℕ) (src : List ℕ) (n : ℕ)
    → n ≤ length src
    → read_bytes (memcpy m off src n) off n ≡ take n src
read_bytes-memcpy m off src n h = read_bytes-source (memcpy m off src n) off src n h λ i p.
    memcpy_inside m off src n (off + i) (omega arith) (omega arith)
    ∙ ap (λ k. get_or src k 0) (let e : off + i - off ≡ i = omega arith in e)

pub read16-write16_self : (m : Memory) (off v : ℕ) → v < 0x1_0000 → read16 (write16 m off v) off ≡ v
unfolding read16 write16
read16-write16_self m off v h = ground arith

pub read16-write16_ne :
    (m : Memory) (off v at : ℕ)
    → (at + 2 ≤ off) ⊎ (off + 2 ≤ at)
    → read16 (write16 m off v) at ≡ read16 m at
unfolding read16 write16
read16-write16_ne m off v at h = ground arith

pub read16-memcpy_ne :
    (m : Memory) (off : ℕ) (src : List ℕ) (n at : ℕ)
    → (at + 2 ≤ off) ⊎ (off + n ≤ at)
    → read16 (memcpy m off src n) at ≡ read16 m at
unfolding read16 memcpy
read16-memcpy_ne m off src n at h = ground arith

pub write16_outside :
    (m : Memory) (off v a : ℕ) → (a < off) ⊎ (off + 2 ≤ a) → write16 m off v a ≡ m a
unfolding write16
write16_outside m off v a h = ground arith

-- The memory holds these bytes from `off` on.
abbrev pub Holds : Memory → ℕ → List ℕ → Type 0
Holds m off [] = Unit {0}
Holds m off (b ∷ bs) = (m off ≡ b) × Holds m (off + 1) bs

pub Holds-append :
    (m : Memory) (off : ℕ) (xs ys : List ℕ)
    → Holds m off (xs ++ ys)
    → Holds m off xs × Holds m (off + length xs) ys
Holds-append m off [] ys h = (tt, rw (let e : off + 0 ≡ off = omega arith in e) h)
Holds-append m off (x ∷ xs) ys h =
    let (l, r) = Holds-append m (off + 1) xs ys h.1 in
    ((h.0, l), rw (let e : off + suc (length xs) ≡ off + 1 + length xs = omega arith in e) r)

pub read_bytes-Holds :
    (m : Memory) (off : ℕ) (bs : List ℕ) → Holds m off bs → read_bytes m off (length bs) ≡ bs
unfolding read_bytes
read_bytes-Holds m off [] h = refl
read_bytes-Holds m off (b ∷ bs) h = cc (h.0, read_bytes-Holds m (off + 1) bs h.1)

pub Holds-read_bytes : (m : Memory) (off n : ℕ) → Holds m off (read_bytes m off n)
unfolding read_bytes
Holds-read_bytes m off zero = tt
Holds-read_bytes m off (suc n) = (refl, Holds-read_bytes m (off + 1) n)
