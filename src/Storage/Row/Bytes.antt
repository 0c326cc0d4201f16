-- ===== src/Storage/Row/Bytes.antt =====
-- Numbers as bytes, and copies into a buffer.
use microsql.Base.{
  ℕ, zero, suc, ◌+◌, ◌/◌, ◌^◌, ◌<◌, ◌≡◌, refl, sym, ap, ◌∙◌, true, List, [], ◌∷◌, ◌++◌, arith,
  length, set, replicate, length-append,
}
use microsql.Base.Int.{ℤ, pos, negsuc, fits_int64}
use microsql.Storage.Row.{le_bytes, le_value, to_u64, from_u64, u64_mod, copy_at}
use native.Mathlib.Nat.{pow-suc}
use mathlib.Core.List.{append_assoc}
use mathlib.Core.Path.{◌≡⟨◌⟩◌, ◌∎}

pub length-le_bytes : (n v : ℕ) → length (le_bytes n v) ≡ n
unfolding le_bytes
length-le_bytes zero v = refl
length-le_bytes (suc n) v = ap suc (length-le_bytes n (v / 256))

pub le_value-le_bytes : (n v : ℕ) → v < 256 ^ n → le_value (le_bytes n v) ≡ v
unfolding le_bytes le_value
le_value-le_bytes zero v h = omega arith
le_value-le_bytes (suc n) v h =
    omega (arith, le_value-le_bytes n (v / 256) (omega (arith, pow-suc 256 n)))

pub from_u64-to_u64 : (a : ℤ) → fits_int64 a ≡ true → from_u64 (to_u64 a) ≡ a
unfolding from_u64 to_u64
from_u64-to_u64 (pos n) h = ground arith
from_u64-to_u64 (negsuc n) h = ground arith

pub to_u64-lt : (a : ℤ) → fits_int64 a ≡ true → to_u64 a < u64_mod
unfolding to_u64
to_u64-lt (pos n) h = ground arith
to_u64-lt (negsuc n) h = ground arith

pub set-append :
    (front : List ℕ) (x b : ℕ) (rest : List ℕ)
    → set (front ++ x ∷ rest) (length front) b ≡ front ++ b ∷ rest
set-append [] x b rest = refl
set-append (f ∷ front) x b rest = ap (λ l. f ∷ l) (set-append front x b rest)

-- A copy behind `front` replaces as many bytes as it has and touches nothing else.
pub copy_at-append :
    (front old bs rest : List ℕ)
    → length old ≡ length bs
    → copy_at (front ++ (old ++ rest)) (length front) bs ≡ front ++ (bs ++ rest)
unfolding copy_at
copy_at-append front [] [] rest h = refl
copy_at-append front (x ∷ old) [] rest h = absurd (omega arith)
copy_at-append front [] (b ∷ bs) rest h = absurd (omega arith)
copy_at-append front (x ∷ old) (b ∷ bs) rest h =
    copy_at (set (front ++ x ∷ (old ++ rest)) (length front) b) (length front + 1) bs
    ≡⟨ ap (λ l. copy_at l (length front + 1) bs)
        (set-append front x b (old ++ rest) ∙ sym (append_assoc front (b ∷ []) (old ++ rest))) ⟩
      copy_at ((front ++ b ∷ []) ++ (old ++ rest)) (length front + 1) bs
    ≡⟨ ap (λ k. copy_at ((front ++ b ∷ []) ++ (old ++ rest)) k bs)
        (omega (arith, length-append {0} front (b ∷ []))) ⟩
      copy_at ((front ++ b ∷ []) ++ (old ++ rest)) (length (front ++ b ∷ [])) bs
    ≡⟨ copy_at-append (front ++ b ∷ []) old bs rest (omega arith) ⟩
      (front ++ b ∷ []) ++ (bs ++ rest)
    ≡⟨ append_assoc front (b ∷ []) (bs ++ rest) ⟩ front ++ (b ∷ bs ++ rest) ∎

abbrev pub zeros : ℕ → List ℕ
zeros n = replicate n 0

pub zeros-add : (n k : ℕ) → zeros (n + k) ≡ zeros n ++ zeros k
zeros-add zero k = ap zeros (let e : 0 + k ≡ k = omega arith in e)
zeros-add (suc n) k =
    ap zeros (let e : suc n + k ≡ suc (n + k) = omega arith in e) ∙ ap (λ l. 0 ∷ l) (zeros-add n k)

-- The buffer after a flag byte.
pub flag_written :
    (front rest : List ℕ) (b : ℕ)
    → set (front ++ 0 ∷ rest) (length front) b ≡ (front ++ b ∷ []) ++ rest
flag_written front rest b = set-append front 0 b rest ∙ sym (append_assoc front (b ∷ []) rest)

pub length-snoc : (front : List ℕ) (b : ℕ) → length front + 1 ≡ length (front ++ b ∷ [])
length-snoc front b = omega (arith, length-append {0} front (b ∷ []))
