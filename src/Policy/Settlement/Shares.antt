-- ===== src/Policy/Settlement/Shares.antt =====
-- How a claim is split when the policy's limit is a whole number of cents, as every figure that
-- `extract_rules` reads is.
use omnicare_genai_assessmen.Prelude.{
  ℕ, ◌<◌, ◌≡◌, ◌↔◌, refl, true, ◌&&◌, Option, none, some, arith, ap, ◌∙◌, Bool-cases, inl, inr,
}
use omnicare_genai_assessmen.Prelude.Int.{
  ℤ, pos, negsuc, ◌+ℤ◌, ◌-ℤ◌, ◌≤ℤ◌, ◌<ℤ◌, ltb_ℤ, leb_ℤ, eqb_ℤ, min_ℤ, max_ℤ, scale, int_laws,
  eq_of_parts,
}
use omnicare_genai_assessmen.Policy.Money.{quantize, quantize-scale, scale-sub, ltb-scale}
use omnicare_genai_assessmen.Policy.Settlement.{
  Settlement, above_limit, applied_deductible, below_deductible, excess, Wording, insurer_share,
  over_limit, or_zero, settle,
}
use mathlib.Core.Option

-- A figure that the policy states is not negative, and one that it does not state is no figure.
abbrev pub IsNonneg : Option ℤ → Type 0
IsNonneg none = Unit
IsNonneg (some k) = pos 0 ≤ℤ k

-- No more than the limit, where there is one.
abbrev pub Within : ℤ → Option ℤ → Type 0
Within a none = Unit
Within a (some k) = a ≤ℤ k

-- The insurer's share in cents.
abbrev pub capped : ℤ → Option ℤ → ℤ
capped e none = e
capped e (some k) = min_ℤ e k

covered_bounds :
    (c d : ℤ) (l : Option ℤ)
    → pos 0 ≤ℤ c
    → pos 0 ≤ℤ d
    → IsNonneg l
    → (pos 0 ≤ℤ capped (max_ℤ (c -ℤ d) (pos 0)) l)
      × (capped (max_ℤ (c -ℤ d) (pos 0)) l ≤ℤ c)
      × Within (capped (max_ℤ (c -ℤ d) (pos 0)) l) l
      × (min_ℤ d c ≤ℤ c -ℤ capped (max_ℤ (c -ℤ d) (pos 0)) l)
      × (c -ℤ capped (max_ℤ (c -ℤ d) (pos 0)) l ≤ℤ c)
unfolding ◌-ℤ◌
covered_bounds (negsuc c) d l p q r = absurd (omega arith)
covered_bounds (pos c) (negsuc d) l p q r = absurd (omega arith)
covered_bounds (pos c) (pos d) none p q r = ground arith
covered_bounds (pos c) (pos d) (some (negsuc l)) p q r = absurd (omega arith)
covered_bounds (pos c) (pos d) (some (pos l)) p q r = ground arith

-- The part above the deductible that the insurer does not pay.
abbrev left_over : ℤ → ℤ → Option ℤ → ℤ
left_over c d l = c -ℤ capped (max_ℤ (c -ℤ d) (pos 0)) l -ℤ min_ℤ d c

left_over_iff :
    (c d : ℤ) (l : Option ℤ)
    → pos 0 ≤ℤ c
    → pos 0 ≤ℤ d
    → IsNonneg l
    → (over_limit l (c -ℤ d) ≡ true) ↔ (pos 0 <ℤ left_over c d l)
unfolding ◌-ℤ◌ over_limit
left_over_iff (negsuc c) d l p q r = absurd (omega arith)
left_over_iff (pos c) (negsuc d) l p q r = absurd (omega arith)
left_over_iff (pos c) (pos d) none p q r = ground arith
left_over_iff (pos c) (pos d) (some (negsuc l)) p q r = absurd (omega arith)
left_over_iff (pos c) (pos d) (some (pos l)) p q r = ground arith

below_iff :
    (c d : ℤ) (l : Option ℤ)
    → pos 0 ≤ℤ c
    → pos 0 ≤ℤ d
    → IsNonneg l
    → let i = capped (max_ℤ (c -ℤ d) (pos 0)) l in
      let below = eqb_ℤ i (pos 0) && (leb_ℤ c d && ltb_ℤ (pos 0) c) in
      ((below ≡ true) ↔ ((pos 0 <ℤ c) × (c ≤ℤ d))) × (below ≡ true → c -ℤ i ≡ c)
unfolding ◌-ℤ◌
below_iff (negsuc c) d l p q r = absurd (omega arith)
below_iff (pos c) (negsuc d) l p q r = absurd (omega arith)
below_iff (pos c) (pos d) none p q r = ground arith
below_iff (pos c) (pos d) (some (negsuc l)) p q r = absurd (omega arith)
below_iff (pos c) (pos d) (some (pos l)) p q r = ground arith

module _ (u : ℕ) (cents : 0 < u) where
  insurer_share-scale :
      (e : ℤ) (k : Option ℤ)
      → insurer_share u e (Option.map (λ c. scale c u) k) ≡ scale (capped e k) u
  unfolding insurer_share
  insurer_share-scale e none = refl
  insurer_share-scale e (some k) =
      rw (ltb-scale k e u cents) (elim (Bool-cases (ltb_ℤ k e)) [ inl t ↦ rw t | inr f ↦ rw f ])

  limit-scale : (k : Option ℤ) → Option.map (quantize u) (Option.map (λ c. scale c u) k) ≡ k
  limit-scale none = refl
  limit-scale (some k) = ap some (quantize-scale u k cents)

  module _ (claimed : ℤ) (k deductible : Option ℤ) (w : Wording) where
    abbrev split : Settlement
    split = settle u claimed (Option.map (λ c. scale c u) k) deductible w

    abbrev covered : ℤ
    covered = capped (max_ℤ (quantize u claimed -ℤ quantize u (or_zero deductible)) (pos 0)) k

    split-insurer : split.insurer_pays ≡ covered
    unfolding settle
    split-insurer = ap (quantize u) (insurer_share-scale _ k) ∙ quantize-scale u covered cents

    split-policyholder : split.policyholder_pays ≡ quantize u claimed -ℤ covered
    unfolding settle
    split-policyholder =
        ap (λ (s : ℤ). quantize u (scale (quantize u claimed) u -ℤ s)) (insurer_share-scale _ k)
        ∙ ap (quantize u) (scale-sub (quantize u claimed) covered u)
        ∙ quantize-scale u _ cents

    split-above :
        above_limit split ≡ over_limit k (quantize u claimed -ℤ quantize u (or_zero deductible))
    unfolding above_limit settle
    split-above =
        ap (λ (l : Option ℤ). over_limit l (quantize u claimed -ℤ quantize u (or_zero deductible)))
          (limit-scale k)

    split-excess : excess split ≡ left_over (quantize u claimed) (quantize u (or_zero deductible)) k
    unfolding excess settle
    split-excess =
        ap (λ (s : ℤ). s -ℤ min_ℤ (quantize u (or_zero deductible)) (quantize u claimed))
          split-policyholder

    split-below : below_deductible split ≡ (
        eqb_ℤ covered (pos 0)
        && (leb_ℤ (quantize u claimed) (quantize u (or_zero deductible))
            && ltb_ℤ (pos 0) (quantize u claimed)))
    unfolding below_deductible settle
    split-below =
        ap
          (λ (s : ℤ).
            eqb_ℤ s (pos 0)
            && (leb_ℤ (quantize u claimed) (quantize u (or_zero deductible))
                && ltb_ℤ (pos 0) (quantize u claimed)))
          split-insurer

    -- With no limit, or one of whole cents, the two shares add up to the claim exactly, whatever
    -- the signs of the figures.
    pub shares_sum : split.insurer_pays +ℤ split.policyholder_pays ≡ split.claimed
    shares_sum =
        rw (split-insurer, split-policyholder) (eq_of_parts _ _ (unfold settle in omega int_laws))

    module _ (loss : pos 0 ≤ℤ quantize u claimed) (own : pos 0 ≤ℤ quantize u (or_zero deductible))
        (stated : IsNonneg k) where
      -- On a claim and a deductible that are not negative, and with no limit or one that is a whole
      -- number of cents and not negative: the insurer pays between nothing and the claim, and at
      -- most the limit; the policyholder pays at least the deductible, or the whole of a smaller
      -- claim, and at most the claim.
      pub shares_bounds :
          (pos 0 ≤ℤ split.insurer_pays)
          × (split.insurer_pays ≤ℤ split.claimed)
          × Within split.insurer_pays k
          × (applied_deductible split ≤ℤ split.policyholder_pays)
          × (split.policyholder_pays ≤ℤ split.claimed)
      unfolding applied_deductible
      shares_bounds =
          rw (split-insurer, split-policyholder)
            (unfold settle in
              covered_bounds (quantize u claimed) (quantize u (or_zero deductible)) k loss own
                stated)

      -- On a claim and a deductible that are not negative, and with no limit or one that is a whole
      -- number of cents and not negative, the reasons that are given with a split are the true
      -- ones: part of the loss lies above the limit exactly when the policyholder pays more than
      -- the deductible, and a claim is reported as below the deductible exactly when it is positive
      -- and no larger, and then pays nothing.
      pub reasons_given :
          ((above_limit split ≡ true) ↔ (pos 0 <ℤ excess split))
          × ((below_deductible split ≡ true)
              ↔ ((pos 0 <ℤ split.claimed) × (split.claimed ≤ℤ split.deductible)))
          × (below_deductible split ≡ true → split.policyholder_pays ≡ split.claimed)
      unfolding excess above_limit below_deductible
      reasons_given =
          let c : ℤ = quantize u claimed in
          let d : ℤ = quantize u (or_zero deductible) in
          rw (split-above, split-excess, split-below)
            (unfold settle in
              (
                left_over_iff c d k loss own stated,
                (below_iff c d k loss own stated).0,
                λ h. split-policyholder ∙ (below_iff c d k loss own stated).1 h,
              ))
