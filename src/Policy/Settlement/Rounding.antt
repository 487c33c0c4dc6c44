-- ===== src/Policy/Settlement/Rounding.antt =====
-- How a claim is split when the limit has a fraction of a cent, which `settle` accepts.
use omnicare_genai_assessmen.Prelude.{
  ℕ, ◌+◌, ◌-◌, ◌*◌, ◌/◌, ◌%◌, ◌≤◌, ◌<◌, ◌≡◌, ◌≢◌, ◌↔◌, ◌⊎◌, inl, inr, refl, some, arith, ap, sym,
  ◌∙◌, ltb, ◌==◌, Bool-cases, ltb→lt,
}
use omnicare_genai_assessmen.Prelude.Int.{
  pos, ◌+ℤ◌, ◌-ℤ◌, scale, max_ℤ, int_laws, +ℤ_parts, eq_of_parts,
}
use omnicare_genai_assessmen.Policy.Money.{
  quantize, half_even, half_even-at, half_even-mul, rounded,
}
use omnicare_genai_assessmen.Policy.Settlement.{Settlement, Wording, insurer_share, settle}
use mathlib.Core.Path.{subst}
use native.Mathlib.Nat.{div-add-mod', div-lt_iff_lt-mul, mod-lt, le_trans, mul-le-mul_right}

rest_of : (m u q r : ℕ) → r < u → (m + q + 1) * u - (q * u + r) ≡ m * u + (u - r)
rest_of m u q r h = omega arith

-- A limit of `q` whole cents and `r` units more, on a claim of `c` cents that reaches past it.
module _ (u q r c : ℕ) (part : r < u) (some_part : 0 < r) (past : q < c) where
  rest-at : c * u - (q * u + r) ≡ (c - q - 1) * u + (u - r)
  rest-at =
      let e : c - q - 1 + q + 1 ≡ c = omega arith in
      subst (λ (n : ℕ). n * u - (q * u + r) ≡ (c - q - 1) * u + (u - r)) e
        (rest_of (c - q - 1) u q r part)

  rounded_sum : (2 * r ≢ u) ⊎ (c % 2 ≡ 0) → rounded u q r + rounded u (c - q - 1) (u - r) ≡ c
  rounded_sum h = ground arith

  rounded_drift : 2 * r ≡ u → c % 2 ≡ 1 → rounded u q r + rounded u (c - q - 1) (u - r) ≢ c
  rounded_drift h k e = ground arith

  both :
      half_even u (q * u + r) + half_even u (c * u - (q * u + r))
      ≡ rounded u q r + rounded u (c - q - 1) (u - r)
  both = rw (rest-at, half_even-at u q r part, half_even-at u (c - q - 1) (u - r) (omega arith))

-- The two rounded parts of `c` cents that are cut at `l` units.
abbrev parts_sum : ℕ → ℕ → ℕ → ℕ
parts_sum u c l = half_even u l + half_even u (c * u - l)

-- `l` lies half way between two cents.
abbrev pub IsHalf : ℕ → ℕ → Type 0
IsHalf u l = 2 * (l % u) ≡ u

module _ (u c : ℕ) (cents : 0 < u) where
  whole_sum : (n : ℕ) → n ≤ c → parts_sum u c (n * u) ≡ c
  whole_sum n h =
      let e : c - n + n ≡ c = omega arith in
      let cut : c * u - n * u ≡ (c - n) * u =
        subst (λ (k : ℕ). k * u - n * u ≡ (c - n) * u) e (omega arith) in
      rw (cut, half_even-mul u n cents, half_even-mul u (c - n) cents) (omega arith)

  module _ (l : ℕ) (past : l < c * u) where
    quotient-lt : l / u < c
    quotient-lt = (div-lt_iff_lt-mul cents).1 past

    whole_cut : l % u ≡ 0 → parts_sum u c l ≡ c
    whole_cut z =
        let e : l / u * u ≡ l = omega (arith, div-add-mod' l u) in
        subst (λ (n : ℕ). parts_sum u c n ≡ c) e (whole_sum (l / u) (omega (arith, quotient-lt)))

    part_cut :
        0 < l % u
        → parts_sum u c l ≡ rounded u (l / u) (l % u) + rounded u (c - l / u - 1) (u - l % u)
    part_cut z =
        subst
          (λ (n : ℕ).
            parts_sum u c n ≡ rounded u (l / u) (l % u) + rounded u (c - l / u - 1) (u - l % u))
          (div-add-mod' l u) (both u (l / u) (l % u) c (mod-lt l cents) z quotient-lt)

    cut_sum : (2 * (l % u) ≢ u) ⊎ (c % 2 ≡ 0) → parts_sum u c l ≡ c
    cut_sum h = elim (Bool-cases (ltb 0 (l % u))) [
      | inl p ↦
          part_cut (ltb→lt _ _ p)
          ∙ rounded_sum u (l / u) (l % u) c (mod-lt l cents) (ltb→lt _ _ p) quotient-lt h
      | inr z ↦ whole_cut (ground arith)
    ]

    cut_drift : IsHalf u l → c % 2 ≡ 1 → parts_sum u c l ≢ c
    cut_drift h k e =
        let z : 0 < l % u = omega arith in
        rounded_drift u (l / u) (l % u) c (mod-lt l cents) z quotient-lt h k (sym (part_cut z) ∙ e)

pos_sum : (x y z : ℕ) → pos x +ℤ pos y ≡ pos z → x + y ≡ z
pos_sum x y z h = ground (arith, +ℤ_parts (pos x) (pos y))

sum_pos : (x y z : ℕ) → x + y ≡ z → pos x +ℤ pos y ≡ pos z
sum_pos x y z h = eq_of_parts _ _ (omega (int_laws, h))

fraction_or_even : (u c l : ℕ) → (2 * (l % u) ≡ u → c % 2 ≡ 1 → ⊥) → (2 * (l % u) ≢ u) ⊎ (c % 2 ≡ 0)
fraction_or_even u c l f = elim (Bool-cases (c % 2 == 0)) [
  | inl even ↦ inr (ground arith)
  | inr odd ↦ inl (λ half. f half (ground arith))
]

-- A claim of `c` cents, a deductible of `d` cents, and a limit of `l` units that the loss passes.
module _ (u c d l : ℕ) (cents : 0 < u) (past : l < (c - d) * u) (w : Wording) where
  abbrev split : Settlement
  split = settle u (pos (c * u)) (some (pos l)) (some (pos (d * u))) w

  past_claim : l < c * u
  past_claim = le_trans past (mul-le-mul_right u (omega arith))

  net-pos : max_ℤ (pos c -ℤ pos d) (pos 0) ≡ pos (c - d)
  unfolding ◌-ℤ◌
  net-pos = ground arith

  share-pos : insurer_share u (pos (c - d)) (some (pos l)) ≡ pos l
  unfolding insurer_share scale
  share-pos = ground arith

  rest-pos : scale (pos c) u -ℤ pos l ≡ pos (c * u - l)
  unfolding scale ◌-ℤ◌
  rest-pos = ground (arith, past_claim)

  quantize-pos : (n : ℕ) → quantize u (pos (n * u)) ≡ pos n
  unfolding quantize
  quantize-pos n = ap pos (half_even-mul u n cents)

  split-shares :
      (split.insurer_pays ≡ pos (half_even u l))
      × (split.policyholder_pays ≡ pos (half_even u (c * u - l)))
      × (split.claimed ≡ pos c)
  unfolding settle
  split-shares =
      rw (quantize-pos c, quantize-pos d, net-pos, share-pos, rest-pos)
        (unfold quantize in (refl, refl, refl))

  -- When the limit that caps the payment has a fraction of a cent, the two rounded shares add up to
  -- the claim exactly when that fraction is not one half or the claim is an even number of cents.
  pub shares_sum_iff :
      (split.insurer_pays +ℤ split.policyholder_pays ≡ split.claimed)
      ↔ ((2 * (l % u) ≢ u) ⊎ (c % 2 ≡ 0))
  shares_sum_iff =
      let (a, b, e) = split-shares in
      rw (a, b, e)
        (
          (λ h.
              fraction_or_even u c l
                (λ half odd. cut_drift u c cents l past_claim half odd (pos_sum _ _ _ h))),
          λ h. sum_pos _ _ _ (cut_sum u c cents l past_claim h),
        )
