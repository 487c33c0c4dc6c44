-- ===== src/Policy/Money.antt =====
-- `Decimal` amounts and `quantize(Decimal("0.01"))`. The amounts of one calculation are integers in
-- a unit of which `u` make a cent (a power of ten), so sums and comparisons are exact.
use omnicare_genai_assessmen.Prelude.{
  ℕ, suc, ◌+◌, ◌-◌, ◌*◌, ◌/◌, ◌%◌, ◌≤◌, ◌<◌, ◌≡◌, false, ltb, ◌==◌, arith, if◌then◌else◌, inl, inr,
  Bool-cases, ltb→lt, lt→ltb, ap, sym, ◌∙◌,
}
use mathlib.Core.Path.{ap₂}
use native.Mathlib.Nat.{
  add_comm, mul_comm, add-zero, add-mul-div_left, add-mul-mod_self_left, mod-eq_of_lt, div-eq_of_lt,
}
use omnicare_genai_assessmen.Prelude.Int.{
  ℤ, pos, negsuc, pos_part, neg_part, sub_ℕ, ◌-ℤ◌, ltb_ℤ, scale, int_laws, eq_of_parts, -ℤ_parts,
}

-- The default rounding of the `decimal` module: to nearest, a half to the even neighbour.
unfoldable pub half_even : ℕ → ℕ → ℕ
half_even u n =
    if ltb (2 * (n % u)) u
    then n / u
    else if ltb u (2 * (n % u))
    then n / u + 1
    else if (n / u) % 2 == 0
    then n / u
    else n / u + 1

unfoldable pub negate : ℕ → ℤ
negate n = sub_ℕ 0 n

-- The amount in cents; rounding is symmetric about 0.
unfoldable pub quantize : ℕ → ℤ → ℤ
unfolding half_even negate
quantize u (pos n) = pos (half_even u n)
quantize u (negsuc n) = negate (half_even u (suc n))

-- A quotient and remainder that are written out.
div-at : (u q r : ℕ) → r < u → (q * u + r) / u ≡ q
div-at u q r h =
    rw (add_comm (q * u) r, mul_comm q u)
      (add-mul-div_left r q (omega arith) ∙ rw (div-eq_of_lt h) (omega arith))

mod-at : (u q r : ℕ) → r < u → (q * u + r) % u ≡ r
mod-at u q r h =
    rw (add_comm (q * u) r, mul_comm q u) (add-mul-mod_self_left r u q ∙ mod-eq_of_lt h)

-- What `half_even` makes of `q` whole cents and `r` units.
abbrev pub rounded : ℕ → ℕ → ℕ → ℕ
rounded u q r =
    if ltb (2 * r) u then q else if ltb u (2 * r) then q + 1 else if q % 2 == 0 then q else q + 1

pub half_even-at : (u q r : ℕ) → r < u → half_even u (q * u + r) ≡ rounded u q r
unfolding half_even
half_even-at u q r h = rw (div-at u q r h, mod-at u q r h)

pub half_even-mul : (u n : ℕ) → 0 < u → half_even u (n * u) ≡ n
half_even-mul u n h =
    ap (half_even u) (sym (add-zero (n * u))) ∙ half_even-at u n 0 h ∙ ground arith

pub scale_parts :
    (a : ℤ) (u : ℕ)
    → (pos_part (scale a u) ≡ pos_part a * u) × (neg_part (scale a u) ≡ neg_part a * u)
unfolding scale
scale_parts (pos n) u = omega arith
scale_parts (negsuc n) u = ground arith

scale_neg : (n m u : ℕ) → suc n * u ≡ suc m → scale (negsuc n) u ≡ negsuc m
unfolding scale
scale_neg n m u e = ground arith

-- Rounding a whole number of cents gives it back.
pub quantize-scale : (u : ℕ) (a : ℤ) → 0 < u → quantize u (scale a u) ≡ a
unfolding quantize scale
quantize-scale u (pos n) h = ap pos (half_even-mul u n h)
quantize-scale u (negsuc n) h =
    let m : ℕ = suc n * u - 1 in
    let e : suc n * u ≡ suc m = ground arith in
    rw (scale_neg n m u e)
      (ap negate (ap (half_even u) (sym e) ∙ half_even-mul u (suc n) h) ∙ ground arith)

pub scale-sub : (a b : ℤ) (u : ℕ) → scale a u -ℤ scale b u ≡ scale (a -ℤ b) u
scale-sub a b u = eq_of_parts _ _ (
    omega (
      int_laws,
      scale_parts a u,
      scale_parts b u,
      scale_parts (a -ℤ b) u,
      ap (λ (t : ℕ). t * u) (-ℤ_parts a b),
    ))

lt_mul : (x y u : ℕ) → 0 < u → x < y → x * u < y * u
lt_mul x y u h p = grind arith

le_mul : (x y u : ℕ) → x ≤ y → x * u ≤ y * u
le_mul x y u p = grind arith

ltb-mul_ge : (x y u : ℕ) → ltb x y ≡ false → ltb (x * u) (y * u) ≡ false
ltb-mul_ge x y u f = ground (arith, le_mul y x u (ground arith))

ltb-mul : (x y u : ℕ) → 0 < u → ltb (x * u) (y * u) ≡ ltb x y
ltb-mul x y u h = elim (Bool-cases (ltb x y)) [
  | inl t ↦ rw t (lt→ltb _ _ (lt_mul x y u h (ltb→lt x y t)))
  | inr f ↦ rw f (ltb-mul_ge x y u f)
]

pub ltb-scale : (a b : ℤ) (u : ℕ) → 0 < u → ltb_ℤ (scale a u) (scale b u) ≡ ltb_ℤ a b
ltb-scale a b u h =
    let (pa, na) = scale_parts a u in
    let (pb, nb) = scale_parts b u in
    let left : pos_part (scale a u) + neg_part (scale b u) ≡ (pos_part a + neg_part b) * u =
      omega arith in
    let right : pos_part (scale b u) + neg_part (scale a u) ≡ (pos_part b + neg_part a) * u =
      omega arith in
    ap₂ ltb left right ∙ ltb-mul _ _ u h
