-- ===== src/Policy/Tests.antt =====
-- Runs of the policy rules on the wording of a policy, and the theorems at them.
use omnicare_genai_assessmen.Prelude.{
  ◌*◌, ◌%◌, ◌≡◌, ◌≢◌, ◌↔◌, ◌⊎◌, refl, true, Option, some, [], ◌∷◌, arith, All,
}
use mathlib.Core.Option
use omnicare_genai_assessmen.Prelude.Int.{pos, ◌+ℤ◌, ◌≤ℤ◌, ◌<ℤ◌, scale}
use omnicare_genai_assessmen.Text.{Text, codes}
use omnicare_genai_assessmen.Policy.Money.{quantize}
use omnicare_genai_assessmen.Policy.Extract.{
  limit, deductible, same_kind, CoverageRule, extract_rules, sentences, exclusions_in,
}
use omnicare_genai_assessmen.Prelude.{IfOk}
use omnicare_genai_assessmen.Policy.Extract.Kinds.{IsSound, extract_rules-IsSound}
use omnicare_genai_assessmen.Policy.Governing.{
  Section, normalised, governing_section, coverage_limit_for, settlement_for,
}
use omnicare_genai_assessmen.Policy.Governing.Agreement.{cap_of, settlement-agrees}
use omnicare_genai_assessmen.Policy.Governing.Preference.{
  Names, StatesLimit, IsPassedOver, governing_section-prefers_limit,
}
use omnicare_genai_assessmen.Text.Regex.{find_all, search_text, group_of, split_text, substitute}
use omnicare_genai_assessmen.Text.{same, strip, without, decimal, to_lower, lower, contains}
use mathlib.Core.List.{flat_map}
use omnicare_genai_assessmen.Policy.Settlement.{
  Settlement, Wording, settle, applied_deductible, above_limit, below_deductible, excess,
}
use omnicare_genai_assessmen.Policy.Settlement.Shares.{shares_sum, shares_bounds, reasons_given}
use omnicare_genai_assessmen.Policy.Settlement.Rounding.{shares_sum_iff}

abbrev wording : Wording
wording = record {
  section_title = codes "Section 1: Home Water Damage Coverage";
  source_file = codes "sample_policy.md";
  policy_says = [];
  exclusions = [];
}

-- A loss of $35,000 against a limit of $25,000 and a deductible of $500, to the tenth of a cent.
abbrev large_loss : Settlement
large_loss = settle 10 (pos 35000000) (some (pos 25000000)) (some (pos 500000)) wording

shares_sum_example : large_loss.insurer_pays +ℤ large_loss.policyholder_pays ≡ large_loss.claimed
unfolding scale
shares_sum_example =
    shares_sum 10 (omega arith) (pos 35000000) (some (pos 2500000)) (some (pos 500000)) wording

reasons_given_example :
    ((above_limit large_loss ≡ true) ↔ (pos 0 <ℤ excess large_loss))
    × ((below_deductible large_loss ≡ true)
        ↔ ((pos 0 <ℤ large_loss.claimed) × (large_loss.claimed ≤ℤ large_loss.deductible)))
    × (below_deductible large_loss ≡ true → large_loss.policyholder_pays ≡ large_loss.claimed)
unfolding quantize scale
reasons_given_example =
    reasons_given 10 (omega arith) (pos 35000000) (some (pos 2500000)) (some (pos 500000)) wording
      (omega arith) (omega arith) (omega arith)

shares_bounds_example :
    (pos 0 ≤ℤ large_loss.insurer_pays)
    × (large_loss.insurer_pays ≤ℤ large_loss.claimed)
    × (large_loss.insurer_pays ≤ℤ pos 2500000)
    × (applied_deductible large_loss ≤ℤ large_loss.policyholder_pays)
    × (large_loss.policyholder_pays ≤ℤ large_loss.claimed)
unfolding quantize scale
shares_bounds_example =
    shares_bounds 10 (omega arith) (pos 35000000) (some (pos 2500000)) (some (pos 500000)) wording
      (omega arith) (omega arith) (omega arith)

-- A limit of half a cent against a claim of three cents: the two shares are zero and two cents.
half_cent : Settlement
half_cent = settle 10 (pos (3 * 10)) (some (pos 5)) (some (pos (0 * 10))) wording

shares_sum_iff_example :
    (half_cent.insurer_pays +ℤ half_cent.policyholder_pays ≡ half_cent.claimed)
    ↔ ((2 * (5 % 10) ≢ 10) ⊎ (3 % 2 ≡ 0))
unfolding half_cent
shares_sum_iff_example = shares_sum_iff 10 3 0 5 (omega arith) (omega arith) wording

abbrev prose : Text
prose =
    codes
      "Sudden pipe bursts are covered up to $25,000 with a $500 deductible. Floods are excluded."

abbrev water : Section
water = record { title = codes "Water Damage"; text = prose; source_file = codes "policy.md" }

extract_rules-IsSound_example :
    IfOk
      (IsSound (codes "Water Damage") (sentences prose))
      (extract_rules prose (codes "Water Damage"))
extract_rules-IsSound_example = extract_rules-IsSound prose (codes "Water Damage")

abbrev first_sentence : Text
first_sentence = codes "Sudden pipe bursts are covered up to $25,000 with a $500 deductible."

prose_rules :
    extract_rules prose (codes "Water Damage")
    ≡ some (
        record {
          kind = deductible;
          amount = 50000;
          source_text = first_sentence;
          section_title = codes "Water Damage";
        }
        ∷ record {
          kind = limit;
          amount = 2500000;
          source_text = first_sentence;
          section_title = codes "Water Damage";
        }
        ∷ [])
unfolding extract_rules same strip without decimal find_all search_text group_of split_text
    same_kind flat_map to_lower Option.bind
prose_rules = refl

prose_governs : governing_section (codes "Water Damage") (water ∷ []) ≡ some (some water)
unfolding extract_rules same strip without decimal find_all search_text group_of split_text
    same_kind flat_map to_lower Option.bind governing_section substitute contains lower
prose_governs = refl

-- What the section pays on a claim of $35,000.
abbrev water_split : Settlement
water_split =
    settle 1 (pos 3500000) (some (scale (pos 2500000) 1)) (some (scale (pos 50000) 1)) (record {
      section_title = codes "Water Damage";
      source_file = codes "policy.md";
      policy_says = first_sentence ∷ [];
      exclusions = codes "Floods are excluded." ∷ [];
    })

prose_settles :
    settlement_for 1 (codes "Water Damage") (pos 3500000) (water ∷ []) ≡ some (some water_split)
unfolding extract_rules same strip without decimal find_all search_text group_of split_text
    same_kind flat_map to_lower Option.bind settlement_for substitute contains lower exclusions_in
prose_settles = refl

settlement-agrees_example :
    (l : Option CoverageRule) × (sec : Section) × (governing_section
        (codes "Water Damage")
        (water ∷ [])
      ≡ some (some sec))
    × (coverage_limit_for (codes "Water Damage") (water ∷ []) ≡ some l)
    × (water_split.limit ≡ cap_of l)
    × (water_split.section_title ≡ sec.title)
settlement-agrees_example =
    settlement-agrees 1 (omega arith) (pos 3500000) water_split (codes "Water Damage") (water ∷ [])
      prose_settles

governing_section-prefers_limit_example :
    Names (normalised (codes "Water Damage")) water
    × (StatesLimit water ⊎ All (IsPassedOver (normalised (codes "Water Damage"))) (water ∷ []))
governing_section-prefers_limit_example =
    governing_section-prefers_limit (codes "Water Damage") (water ∷ []) water prose_governs
