-- ===== src/Prelude/Digits.antt =====
-- Positional notation, most significant digit first, for the loops `n, d = divmod(n, base)` that put
-- each digit in front.
use hive_nectar.Prelude.{
  ℕ, zero, suc, ◌+◌, ◌*◌, ◌/◌, ◌%◌, ◌<◌, ◌≤◌, ◌≡◌, refl, true, false, List, [], ◌∷◌, ◌++◌, arith,
  leb, leb→le, le→leb, ap, ◌∙◌, inl, inr, Bool-cases, All,
}
use mathlib.Core.List.{foldl}
use native.Mathlib.Nat.{
  mul-add-div_right, mul-add-mod_self_right, div-eq_of_lt, mod-eq_of_lt, div-lt_self, div-add-mod',
  mod-lt, le-div_iff_mul-le,
}

-- `while n >= base: res.insert(0, n % base); n //= base` with `else: res.insert(0, n)`.
pub digits_loop : ℕ → ℕ → ℕ → List ℕ → List ℕ
digits_loop base zero n res = n ∷ res
digits_loop base (suc fuel) n res = elim (leb base n) [
  | true ↦ digits_loop base fuel (n / base) (n % base ∷ res)
  | false ↦ n ∷ res
]

-- A number falls by each division, so `n` rounds are enough.
unfoldable pub to_digits : ℕ → ℕ → List ℕ
unfolding digits_loop
to_digits base n = digits_loop base n n []

-- `n = n * base + d` over the digits.
abbrev pub shift_in : ℕ → ℕ → ℕ → ℕ
shift_in base n d = n * base + d

abbrev pub from_digits : ℕ → List ℕ → ℕ
from_digits base = foldl (shift_in base) 0

module _ (base : ℕ) (two_le : 2 ≤ base) where
  -- Any fuel that covers the number gives the same digits.
  digits_loop_fuel :
      (f g n : ℕ) (res : List ℕ)
      → n ≤ f
      → n ≤ g
      → digits_loop base f n res ≡ digits_loop base g n res
  unfolding digits_loop
  digits_loop_fuel zero zero n res p q = refl
  digits_loop_fuel zero (suc g) n res p q = ground arith
  digits_loop_fuel (suc f) zero n res p q = ground arith
  digits_loop_fuel (suc f) (suc g) n res p q = elim (Bool-cases (leb base n)) [
    | inl more ↦
        let smaller : n / base < n = div-lt_self (ground arith) two_le in
        rw (more, digits_loop)
          (digits_loop_fuel f g (n / base) (n % base ∷ res) (omega arith) (omega arith))
    | inr done ↦ rw (done, digits_loop)
  ]

  base-le-shift_in : (n d : ℕ) → 0 < n → base ≤ shift_in base n d
  base-le-shift_in n d h = grind arith

  shift_in_div : (n d : ℕ) → d < base → shift_in base n d / base ≡ n
  shift_in_div n d h =
      let positive : 0 < base = omega arith in
      rw (mul-add-div_right positive n d) (omega (arith, div-eq_of_lt h))

  shift_in_mod : (n d : ℕ) → d < base → shift_in base n d % base ≡ d
  shift_in_mod n d h = rw (mul-add-mod_self_right n base d) (mod-eq_of_lt h)

  lt-shift_in : (n d : ℕ) → 0 < n → n < shift_in base n d
  lt-shift_in n d h = grind arith

  digits_loop_step :
      (f g n d : ℕ) (res : List ℕ)
      → 0 < n
      → d < base
      → shift_in base n d ≤ f
      → n ≤ g
      → digits_loop base f (shift_in base n d) res ≡ digits_loop base g n (d ∷ res)
  digits_loop_step zero g n d res p h q r = absurd (omega (arith, lt-shift_in n d p))
  digits_loop_step (suc f) g n d res p h q r =
      let more : leb base (shift_in base n d) ≡ true = le→leb _ _ (base-le-shift_in n d p) in
      unfold digits_loop in
      rw (more, digits_loop, shift_in_div n d h, shift_in_mod n d h)
        (digits_loop_fuel f g n (d ∷ res) (omega (arith, lt-shift_in n d p)) r)

  -- Reading digits in and writing the number out again gives the digits back.
  pub digits_loop-foldl :
      (ds : List ℕ) (f g n : ℕ) (res : List ℕ)
      → 0 < n
      → All (λ d. d < base) ds
      → foldl (shift_in base) n ds ≤ f
      → n ≤ g
      → digits_loop base f (foldl (shift_in base) n ds) res ≡ digits_loop base g n (ds ++ res)
  digits_loop-foldl [] f g n res p h q r = digits_loop_fuel f g n res q r
  digits_loop-foldl (d ∷ ds) f g n res p (small, h) q r =
      let m = shift_in base n d in
      digits_loop-foldl ds f m m res (omega (arith, lt-shift_in n d p)) h q (omega arith)
      ∙ digits_loop_step m g n d (ds ++ res) p small (omega arith) r

  first_digit : (n : ℕ) (res : List ℕ) → from_digits base (n ∷ res) ≡ foldl (shift_in base) n res
  first_digit n res = ap (λ m. foldl (shift_in base) m res) (omega arith)

  pub foldl-digits_loop :
      (f n : ℕ) (res : List ℕ)
      → n ≤ f
      → from_digits base (digits_loop base f n res) ≡ foldl (shift_in base) n res
  unfolding digits_loop
  foldl-digits_loop zero n res p = first_digit n res
  foldl-digits_loop (suc f) n res p = elim (Bool-cases (leb base n)) [
    | inl more ↦
        let smaller : n / base < n = div-lt_self (ground (arith, leb→le base n more)) two_le in
        rw (more, digits_loop)
          (foldl-digits_loop f (n / base) (n % base ∷ res) (omega arith)
            ∙ ap (λ m. foldl (shift_in base) m res) (div-add-mod' n base))
    | inr done ↦ rw (done, digits_loop) (first_digit n res)
  ]

  -- The first digit of a positive number is not 0, and every digit is below the base.
  pub digits_loop_shape :
      (f n : ℕ) (res : List ℕ)
      → n ≤ f
      → 0 < n
      → All (λ d. d < base) res
      → (d : ℕ) × (ds : List ℕ) × (digits_loop base f n res ≡ d ∷ ds)
        × (0 < d)
        × (d < base)
        × All (λ x. x < base) ds
  unfolding digits_loop
  digits_loop_shape zero n res p q h = absurd (omega arith)
  digits_loop_shape (suc f) n res p q h = elim (Bool-cases (leb base n)) [
    | inl more ↦
        let positive : 0 < base = omega arith in
        let smaller : n / base < n = div-lt_self q two_le in
        rw (more, digits_loop)
          (digits_loop_shape f (n / base) (n % base ∷ res) (omega arith)
            ((le-div_iff_mul-le positive).1 (omega (arith, leb→le base n more)))
            (mod-lt n positive, h))
    | inr done ↦ rw (done, digits_loop) (n, res, refl, q, ground arith, h)
  ]

  pub digits_loop_small : (f n : ℕ) (res : List ℕ) → n < base → digits_loop base f n res ≡ n ∷ res
  unfolding digits_loop
  digits_loop_small zero n res h = refl
  digits_loop_small (suc f) n res h = ground arith
