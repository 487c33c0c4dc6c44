-- ===== src/Policy/Governing/Agreement.antt =====
-- The cap check and the settlement read the same section and the same figures.
use omnicare_genai_assessmen.Prelude.{
  ℕ, ◌<◌, ◌≡◌, refl, ap, inl, inr, true, false, Option, none, some, List, [], ◌∷◌, arith,
  Bool-cases,
}
use omnicare_genai_assessmen.Prelude.Int.{ℤ, pos}
use mathlib.Core.Option
use mathlib.Core.Option.{some-injective}
use mathlib.Core.Path.{subst}
use omnicare_genai_assessmen.Policy.Money.{quantize, quantize-scale}
use omnicare_genai_assessmen.Text.{Text}
use omnicare_genai_assessmen.Policy.Extract.{
  RuleKind, limit, deductible, per_item_threshold, same_kind, CoverageRule, known,
}
use omnicare_genai_assessmen.Prelude.{IfOk}
use omnicare_genai_assessmen.Policy.Extract.Kinds.{Distinct, IsSound, extract_rules-IsSound}
use omnicare_genai_assessmen.Policy.Settlement.{Settlement, settle}
use omnicare_genai_assessmen.Policy.Governing.{
  Section, rules_of, governing_section, first_rule, last_rule, limit_in, coverage_limit_for, units,
  settlement_of, settlement_in, settlement_for,
}

same_kind-eq : (a b : RuleKind) → same_kind a b ≡ true → a ≡ b
unfolding same_kind
same_kind-eq limit b h = ground arith
same_kind-eq deductible b h = ground arith
same_kind-eq per_item_threshold b h = ground arith

unknown-last : (k : RuleKind) (rs : List CoverageRule) → known k rs ≡ false → last_rule k rs ≡ none
unfolding last_rule known
unknown-last k [] h = refl
unknown-last k (r ∷ rs) h = ground (arith, unknown-last k rs (ground arith))

-- Where no kind stands twice, the first rule of a kind is the last one.
first-last :
    (k : RuleKind) (rs : List CoverageRule) → Distinct rs → first_rule k rs ≡ last_rule k rs
unfolding first_rule last_rule
first-last k [] d = refl
first-last k (r ∷ rs) d = elim (Bool-cases (same_kind r.kind k)) [
  | inl t ↦
      let missing : last_rule k rs ≡ none =
        unknown-last k rs
          (subst (λ (j : RuleKind). known j rs ≡ false) (same_kind-eq r.kind k t) d.0) in
      ground (arith, missing)
  | inr f ↦ ground (arith, first-last k rs d.1)
]

some-inj {ℓ} : {A : Type ℓ} {a b : A} → some a ≡ some b → a ≡ b
some-inj h = cc

-- The cap that a settlement reports, in cents.
abbrev pub cap_of : Option CoverageRule → Option ℤ
cap_of l = Option.map (λ (r : CoverageRule). pos r.amount) l

module _ (u : ℕ) (cents : 0 < u) (amount : ℤ) (s : Settlement) where
  cap-units : (l : Option CoverageRule) → Option.map (quantize u) (units u l) ≡ cap_of l
  cap-units none = refl
  cap-units (some r) = ap some (quantize-scale u (pos r.amount) cents)

  abbrev Reports : Section → Option CoverageRule → Settlement → Type 0
  Reports sec l t = (t.limit ≡ cap_of l) × (t.section_title ≡ sec.title)

  settlement_of-Reports :
      (sec : Section) (l d : Option CoverageRule)
      → settlement_of u amount sec l d ≡ some s
      → Reports sec l s
  unfolding settlement_of settle
  settlement_of-Reports sec none none h = cc
  settlement_of-Reports sec none (some d) h =
      subst (IfOk (Reports sec none)) h (cap-units none, refl)
  settlement_of-Reports sec (some l) none h =
      subst (IfOk (Reports sec (some l))) h (cap-units (some l), refl)
  settlement_of-Reports sec (some l) (some d) h =
      subst (IfOk (Reports sec (some l))) h (cap-units (some l), refl)

  abbrev Agrees : Option (Option Section) → Type 0
  Agrees g =
      (l : Option CoverageRule) × (sec : Section) × (g ≡ some (some sec))
      × (Option.bind g limit_in ≡ some l)
      × (s.limit ≡ cap_of l)
      × (s.section_title ≡ sec.title)

  rules-Agrees :
      (sec : Section) (rules : Option (List CoverageRule))
      → rules_of sec ≡ rules
      → Option.map
          (λ (rs : List CoverageRule).
            settlement_of u amount sec (last_rule limit rs) (last_rule deductible rs))
          rules
        ≡ some (some s)
      → Agrees (some (some sec))
  unfolding Option.bind limit_in
  rules-Agrees sec none e h = cc
  rules-Agrees sec (some rs) e h =
      let sound : IfOk (IsSound sec.title _) (some rs) =
        subst (IfOk (IsSound sec.title _)) e (extract_rules-IsSound sec.text sec.title) in
      let (limit_eq, title_eq) = settlement_of-Reports sec _ _ (some-inj h) in
      (
        last_rule limit rs,
        sec,
        refl,
        rw e (ap some (first-last limit rs sound.distinct)),
        limit_eq,
        title_eq,
      )

  found-Agrees :
      (g : Option (Option Section))
      → Option.bind g (settlement_in u amount) ≡ some (some s)
      → Agrees g
  unfolding Option.bind settlement_in
  found-Agrees none h = cc
  found-Agrees (some none) h = cc
  found-Agrees (some (some sec)) h = rules-Agrees sec (rules_of sec) refl h

  -- When a claim type settles, the settlement is read from the governing section, and its limit is
  -- the amount of the cap that `coverage_limit_for` reports for that claim type, if any.
  pub settlement-agrees :
      (claim_type : Text) (sections : List Section)
      → settlement_for u claim_type amount sections ≡ some (some s)
      → (l : Option CoverageRule) × (sec : Section) × (governing_section claim_type sections
          ≡ some (some sec))
        × (coverage_limit_for claim_type sections ≡ some l)
        × (s.limit ≡ cap_of l)
        × (s.section_title ≡ sec.title)
  unfolding settlement_for coverage_limit_for
  settlement-agrees claim_type sections h = found-Agrees (governing_section claim_type sections) h
