-- ===== src/Prelude/Bits.antt =====
-- Exclusive or at variables: applied twice with the same number it gives back the first one.
use Prim.Native.Nat.{
  ℕ, zero, suc, ◌+◌, ◌*◌, ◌/◌, ◌%◌, ◌≤◌, ◌<◌, bit_xor, digits, differ, bit_xor-bitwise,
}
use mathlib.Core.Path.{◌≡◌, refl, ap, ◌∙◌}
use mathlib.Core.Logic.{◌⊎◌, inl, inr}
use native.Mathlib.Omega.{arith}

-- The digit recursion, with a count of digits that is large enough.
abbrev xor_digits : ℕ → ℕ → ℕ → ℕ
xor_digits n a b = digits (λ b. b) differ n a b

bit-cases : (n : ℕ) → (n % 2 ≡ 0) ⊎ (n % 2 ≡ 1)
bit-cases n = omega arith

differ-twice : (a b : ℕ) → differ (differ (a % 2) (b % 2)) (b % 2) ≡ a % 2
differ-twice a b = elim (bit-cases a) [
  | inl e ↦ elim (bit-cases b) [ inl f ↦ rw (e, f) refl | inr f ↦ rw (e, f) refl ]
  | inr e ↦ elim (bit-cases b) [ inl f ↦ rw (e, f) refl | inr f ↦ rw (e, f) refl ]
]

differ-lt : (a b : ℕ) → differ (a % 2) (b % 2) < 2
differ-lt a b = elim (bit-cases a) [
  | inl e ↦ elim (bit-cases b) [ inl f ↦ rw (e, f) (omega arith) | inr f ↦ rw (e, f) (omega arith) ]
  | inr e ↦ elim (bit-cases b) [ inl f ↦ rw (e, f) (omega arith) | inr f ↦ rw (e, f) (omega arith) ]
]

xor_digits-enough : (n m a b : ℕ) → a ≤ n → a ≤ m → xor_digits n a b ≡ xor_digits m a b
xor_digits-enough zero zero a b h k = refl
xor_digits-enough zero (suc m) zero b h k = refl
xor_digits-enough zero (suc m) (suc a) b h k = absurd (omega arith)
xor_digits-enough (suc n) zero zero b h k = refl
xor_digits-enough (suc n) zero (suc a) b h k = absurd (omega arith)
xor_digits-enough (suc n) (suc m) zero b h k = refl
xor_digits-enough (suc n) (suc m) (suc a) b h k =
    omega (arith, xor_digits-enough n m (suc a / 2) (b / 2) (omega arith) (omega arith))

-- One digit at a time.
xor_digits-step :
    (n a b : ℕ)
    → a ≤ n
    → xor_digits n a b ≡ xor_digits n (a / 2) (b / 2) * 2 + differ (a % 2) (b % 2)
xor_digits-step zero zero b h = omega arith
xor_digits-step zero (suc a) b h = absurd (omega arith)
xor_digits-step (suc n) zero b h = omega arith
xor_digits-step (suc n) (suc a) b h =
    omega (arith, xor_digits-enough n (suc n) (suc a / 2) (b / 2) (omega arith) (omega arith))

xor_digits-zero : (n : ℕ) → xor_digits n 0 0 ≡ 0
xor_digits-zero zero = refl
xor_digits-zero (suc n) = refl

xor_digits-twice :
    (k n m a b : ℕ)
    → a + b ≤ k
    → a ≤ n
    → xor_digits n a b ≤ m
    → xor_digits m (xor_digits n a b) b ≡ a
xor_digits-twice zero n m a b small h enough =
    let a0 : a ≡ 0 = omega arith in
    let b0 : b ≡ 0 = omega arith in rw (a0, b0, xor_digits-zero n) (xor_digits-zero m)
xor_digits-twice (suc k) n m a b small h enough =
    let r = xor_digits n a b in
    let half : r / 2 ≡ xor_digits n (a / 2) (b / 2) =
      omega (arith, xor_digits-step n a b h, differ-lt a b) in
    let digit : r % 2 ≡ differ (a % 2) (b % 2) =
      omega (arith, xor_digits-step n a b h, differ-lt a b) in
    let rest : xor_digits m (xor_digits n (a / 2) (b / 2)) (b / 2) ≡ a / 2 =
      xor_digits-twice k n m (a / 2) (b / 2) (omega arith) (omega arith) (omega (arith, half)) in
    xor_digits-step m r b enough
    ∙ omega (
      arith,
      ap (λ q. xor_digits m q (b / 2)) half,
      ap (λ d. differ d (b % 2)) digit,
      rest,
      differ-twice a b,
    )

pub bit_xor-twice : (a b : ℕ) → bit_xor (bit_xor a b) b ≡ a
bit_xor-twice a b =
    rw (bit_xor-bitwise a b, bit_xor-bitwise (xor_digits a a b) b)
      (xor_digits-twice (a + b) a (xor_digits a a b) a b (omega arith) (omega arith) (omega arith))
