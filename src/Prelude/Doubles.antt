-- ===== src/Prelude/Doubles.antt =====
-- The language's numbers that are no integers: quotients and products of doubles that are not
-- negative, rounded to 53 binary digits, to the nearest and ties to even, and `Math.round`.
use Prim.Native.Nat.{ℕ, zero, suc, ◌+◌, ◌*◌, ◌/◌, ◌%◌, ◌≤◌, ◌<◌}
use mathlib.Core.Path.{◌≡◌, subst}
use mathlib.Core.Logic.{inl, inr}
use mathlib.Core.Bool.{true, false}
use native.Mathlib.Nat.{div-add-mod, mod-lt, mul-le-mul_left, le_of_mul-le-mul_left}
use native.Mathlib.Omega.{arith}
use nestai.Prelude.Tests.{ltb, leb, ◌==◌, if◌then◌else◌, Bool-cases}

-- `num / den`, where `den` is a power of two.
pub record Double : Type 0 where
  pub num : ℕ
  pub den : ℕ

-- 2 ^ 52.
abbrev pub digits : ℕ
digits = 4_503_599_627_370_496

-- The first `den * 2 ^ i` at which `a / b` has 53 binary digits before the point, on fuel.
unfoldable pub scale_up : ℕ → ℕ → ℕ → ℕ → ℕ
scale_up zero a b den = den
scale_up (suc fuel) a b den = elim (leb (digits * b) (a * den)) [
  | true ↦ den
  | false ↦ scale_up fuel a b (2 * den)
]

-- `x / b` to the nearest integer, ties to even.
unfoldable pub round_even : ℕ → ℕ → ℕ
round_even x b =
    if ltb (2 * (x % b)) b
    then x / b
    else if ltb b (2 * (x % b))
    then x / b + 1
    else if x / b % 2 == 0
    then x / b
    else x / b + 1

-- The double of the quotient `a / b`, which is less than 2 ^ 53 and not so small that it has fewer
-- digits.
abbrev pub scale_of : ℕ → ℕ → ℕ
scale_of a b = scale_up (digits * b) a b 1

unfoldable pub quotient : ℕ → ℕ → Double
quotient zero b = record { num = 0; den = 1 }
quotient (suc a) b = record {
  num = round_even (suc a * scale_of (suc a) b) b;
  den = scale_of (suc a) b;
}

-- `x * k` for a small integer `k`.
abbrev pub times : ℕ → Double → Double
times k x = quotient (k * x.num) x.den

-- `Math.round(x)`: the integer below `x + 1 / 2`.
abbrev pub round : Double → ℕ
round x = (2 * x.num + x.den) / (2 * x.den)

round_even-nearest :
    (x b : ℕ)
    → 0 < b
    → (2 * (b * round_even x b) ≤ 2 * x + b) × (2 * x ≤ 2 * (b * round_even x b) + b)
unfolding round_even
round_even-nearest x b pos = elim (Bool-cases (ltb (2 * (x % b)) b)) [
  | inl low ↦
      rw (low, round_even)
        (ground (arith, low, div-add-mod x b), ground (arith, low, div-add-mod x b))
  | inr some_above ↦ elim (Bool-cases (ltb b (2 * (x % b)))) [
    | inl high ↦ rw (some_above, high, round_even) (up (ground (arith, high)))
    | inr tie ↦ elim (Bool-cases (x / b % 2 == 0)) [
      | inl even ↦
          rw (some_above, tie, even, round_even)
            (ground (arith, tie, div-add-mod x b), ground (arith, some_above, tie, div-add-mod x b))
      | inr odd ↦ rw (some_above, tie, odd, round_even) (up (ground (arith, some_above)))
    ]
  ]
]
  where
    up : b ≤ 2 * (x % b) → (2 * (b * (x / b + 1)) ≤ 2 * x + b) × (2 * x ≤ 2 * (b * (x / b + 1)) + b)
    up h =
        let whole : b * (x / b + 1) ≡ b * (x / b) + b = omega arith in
        let parts = div-add-mod x b in
        let below = mod-lt x pos in
        (omega (arith, whole, parts, h), omega (arith, whole, parts, h, below))

abbrev twice : ℕ → ℕ → ℕ
twice zero x = x
twice (suc n) x = twice n (2 * x)

twice-grows : (n x : ℕ) → 0 < x → n + x ≤ twice n x
twice-grows zero x pos = omega arith
twice-grows (suc n) x pos = omega (arith, twice-grows n (2 * x) (omega arith))

scale_up-enough :
    (fuel a b den : ℕ)
    → 0 < den
    → digits * b ≤ twice fuel (a * den)
    → (digits * b ≤ a * scale_up fuel a b den) × (0 < scale_up fuel a b den)
unfolding scale_up
scale_up-enough zero a b den pos enough = (enough, pos)
scale_up-enough (suc fuel) a b den pos enough = elim (Bool-cases (leb (digits * b) (a * den))) [
  | inl e ↦ rw (e, scale_up) (ground arith, pos)
  | inr e ↦
      rw (e, scale_up)
        (scale_up-enough fuel a b (2 * den) (omega arith)
          (subst (λ y. digits * b ≤ twice fuel y) (omega arith) enough))
]

-- 2 ^ 53: a double is within one part in that many.
abbrev pub parts : ℕ
parts = 9_007_199_254_740_992

-- What is known of the double of `a / b`.
pub record IsNear (a b : ℕ) (x : Double) : Type 0 where
  pub positive : 0 < x.den
  pub above : parts * (x.num * b) ≤ (parts + 1) * (a * x.den)
  pub below : 9_007_199_254_740_991 * (a * x.den) ≤ parts * (x.num * b)
  pub capped : (k : ℕ) → a ≤ k * b → x.num ≤ k * x.den

round_even-capped : (x b k : ℕ) → 0 < b → x ≤ k * b → round_even x b ≤ k
round_even-capped x b k pos h = elim (Bool-cases (leb (round_even x b) k)) [
  | inl e ↦ ground (arith, e)
  | inr e ↦
      let over : k + 1 ≤ round_even x b = ground (arith, e) in
      let more = mul-le-mul_left b over in
      let near = (round_even-nearest x b pos).0 in
      let never : b ≤ 0 = omega (arith, h, more, near) in
      let ok : round_even x b ≤ k = omega (arith, never, pos) in ok
]

pub quotient-IsNear : (a b : ℕ) → 0 < b → IsNear a b (quotient a b)
unfolding quotient
quotient-IsNear zero b pos = record {
  positive = omega arith;
  above = omega arith;
  below = omega arith;
  capped = λ k h. omega arith;
}
quotient-IsNear (suc a) b pos =
    let d : ℕ = scale_of (suc a) b in
    let (enough, positive) =
      scale_up-enough (digits * b) (suc a) b 1 (omega arith)
        (omega (arith, twice-grows (digits * b) (suc a * 1) (omega arith))) in
    let (above, below) = round_even-nearest (suc a * d) b pos in
    record {
      positive = positive;
      above = omega (arith, above, enough);
      below = omega (arith, below, enough);
      capped =
          λ k h. round_even-capped (suc a * d) b (k * d) pos (omega (arith, mul-le-mul_left d h));
    }

-- The errors of a product after those of its factor.
module _ (above below whole : ℕ) (p w k : ℕ) (x y : Double) (pos : 0 < x.den)
    (near : IsNear (k * x.num) x.den y) where
  pub times-above :
      whole * (x.num * w) ≤ above * (p * x.den)
      → (parts * whole) * (y.num * w) ≤ ((parts + 1) * above) * ((k * p) * y.den)
  times-above h =
      let first = mul-le-mul_left ((parts + 1) * (k * y.den)) h in
      let second = mul-le-mul_left (whole * w) near.above in
      le_of_mul-le-mul_left {k = x.den} (omega (arith, first, second)) pos

  pub times-below :
      below * (p * x.den) ≤ whole * (x.num * w)
      → (9_007_199_254_740_991 * below) * ((k * p) * y.den) ≤ (parts * whole) * (y.num * w)
  times-below h =
      let first = mul-le-mul_left (9_007_199_254_740_991 * (k * y.den)) h in
      let second = mul-le-mul_left (whole * w) near.below in
      le_of_mul-le-mul_left {k = x.den} (omega (arith, first, second)) pos
