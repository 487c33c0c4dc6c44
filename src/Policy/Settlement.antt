-- ===== src/Policy/Settlement.antt =====
-- `Settlement` and `settle` of backend/libs/policy/rules.py. Amounts that `settle` is given are in
-- the unit of `Policy.Money`; those of a settlement are in cents. `as_dict` and `summary` only
-- print these fields and are not modelled.
pub mod Shares
pub mod Rounding
use omnicare_genai_assessmen.Prelude.{
  ℕ, ◌≤◌, Bool, true, false, ◌&&◌, ◌||◌, Option, none, some, List, ◌++◌, if◌then◌else◌, [],
}
use omnicare_genai_assessmen.Prelude.Int.{ℤ, pos, ◌-ℤ◌, ltb_ℤ, leb_ℤ, eqb_ℤ, min_ℤ, max_ℤ, scale}
use omnicare_genai_assessmen.Text.{Text, codes}
use omnicare_genai_assessmen.Policy.Money.{quantize}
use mathlib.Core.Option

pub record Settlement : Type 0 where
  pub claimed : ℤ
  pub deductible : ℤ
  pub limit : Option ℤ
  pub insurer_pays : ℤ
  pub policyholder_pays : ℤ
  pub section_title : Text
  pub source_file : Text
  pub policy_says : List Text
  pub exclusions : List Text

abbrev is_empty : Text → Bool
is_empty [] = true
is_empty _ = false

-- `format_citation` of backend/libs/contracts/retrieval.py.
unfoldable pub format_citation : Text → Text → Text
format_citation source_file section_title = source_file ++ (codes " § " ++ section_title)

unfoldable pub citation : Settlement → Text
unfolding format_citation
citation s =
    if is_empty s.source_file || is_empty s.section_title
    then []
    else format_citation s.source_file s.section_title

over_limit : Option ℤ → ℤ → Bool
over_limit none net = false
over_limit (some l) net = ltb_ℤ l net

unfoldable pub above_limit : Settlement → Bool
unfolding over_limit
above_limit s = over_limit s.limit (s.claimed -ℤ s.deductible)

unfoldable pub applied_deductible : Settlement → ℤ
applied_deductible s = min_ℤ s.deductible s.claimed

unfoldable pub below_deductible : Settlement → Bool
below_deductible s =
    eqb_ℤ s.insurer_pays (pos 0) && (leb_ℤ s.claimed s.deductible && ltb_ℤ (pos 0) s.claimed)

unfoldable pub excess : Settlement → ℤ
unfolding applied_deductible
excess s = s.policyholder_pays -ℤ applied_deductible s

-- What the caller passes on unread.
pub record Wording : Type 0 where
  pub section_title : Text
  pub source_file : Text
  pub policy_says : List Text
  pub exclusions : List Text

-- `eligible if limit is None else min(eligible, Decimal(limit))`, in units.
pub insurer_share : ℕ → ℤ → Option ℤ → ℤ
insurer_share u eligible none = scale eligible u
insurer_share u eligible (some l) = min_ℤ (scale eligible u) l

-- `Decimal(deductible or 0)`
abbrev pub or_zero : Option ℤ → ℤ
or_zero none = pos 0
or_zero (some d) = d

unfoldable pub settle : ℕ → ℤ → Option ℤ → Option ℤ → Wording → Settlement
unfolding insurer_share
settle u claimed_units limit deductible_units w =
    let claimed = quantize u claimed_units in
    let deductible = quantize u (or_zero deductible_units) in
    let eligible = max_ℤ (claimed -ℤ deductible) (pos 0) in
    let insurer = insurer_share u eligible limit in
    record {
      claimed = claimed;
      deductible = deductible;
      limit = Option.map (quantize u) limit;
      insurer_pays = quantize u insurer;
      policyholder_pays = quantize u (scale claimed u -ℤ insurer);
      section_title = w.section_title;
      source_file = w.source_file;
      policy_says = w.policy_says;
      exclusions = w.exclusions;
    }
