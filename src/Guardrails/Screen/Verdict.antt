-- ===== src/Guardrails/Screen/Verdict.antt =====
-- Which messages `screen` refuses, and what it reports of the others.
use omnicare_genai_assessmen.Prelude.{
  ◌≡◌, inl, inr, refl, Bool, true, false, ◌&&◌, Option, none, some, List, [], ◌∷◌, ◌++◌, ltb, ◌<◌,
  if◌then◌else◌, length, any, keep, find, ◌∙◌, sym, ap, ◌≤◌, map, arith, Bool-cases,
}
use mathlib.Core.List.{append-nil, append_assoc}
use omnicare_genai_assessmen.Text.{Text}
use omnicare_genai_assessmen.Guardrails.Screen.{
  Severity, block, flag, Rule, GuardVerdict, max_input_chars, hits, verdict_of, on_hit, blocked_by,
  apply_rules, too_long, screen, forces_confirmation,
}

abbrev pub is_block : Severity → Bool
is_block block = true
is_block flag = false

-- Whether a rule that blocks hits the message.
abbrev pub blocks : Text → Rule → Bool
blocks message r = hits message r && is_block r.severity

abbrev pub is_nonempty : List Text → Bool
is_nonempty [] = false
is_nonempty (x ∷ xs) = true

-- The ids of the rules that hit.
abbrev pub ids_hit : Text → List Rule → List Text
ids_hit message rules = map (λ (r : Rule). r.id) (keep (hits message) rules)

-- The verdict read off the first rule that blocks, if any, and the ids.
judged : Option Rule → List Text → GuardVerdict
judged none ids = verdict_of ids
judged (some r) ids = blocked_by r

on_hit-judged :
    (sev : Severity) (r : Rule) (go_on : GuardVerdict) (rest : Option Rule) (ids : List Text)
    → go_on ≡ judged rest ids
    → on_hit sev r go_on ≡ judged (if is_block sev then some r else rest) ids
unfolding on_hit judged
on_hit-judged block r go_on rest ids e = refl
on_hit-judged flag r go_on rest ids e = e

apply_rules-judged :
    (message : Text) (flagged : List Text) (rules : List Rule)
    → apply_rules message flagged rules
      ≡ judged (find (blocks message) rules) (flagged ++ ids_hit message rules)
unfolding apply_rules judged
apply_rules-judged message flagged [] = ap verdict_of (sym (append-nil flagged))
apply_rules-judged message flagged (r ∷ rs) = elim (Bool-cases (hits message r)) [
  | inr miss ↦ rw miss (apply_rules-judged message flagged rs)
  | inl hit ↦ rw hit (
      on_hit-judged r.severity r _ (find (blocks message) rs) _ (
        apply_rules-judged message (flagged ++ (r.id ∷ [])) rs
        ∙ ap (judged (find (blocks message) rs))
            (append_assoc flagged (r.id ∷ []) (ids_hit message rs))))
]

find-any :
    (message : Text) (rules : List Rule)
    → find (blocks message) rules ≡ none
    → any (blocks message) rules ≡ false
find-any message [] h = refl
find-any message (r ∷ rs) h = ground (arith, find-any message rs)

found-any :
    (message : Text) (rules : List Rule) (r : Rule)
    → find (blocks message) rules ≡ some r
    → any (blocks message) rules ≡ true
found-any message [] r h = cc
found-any message (x ∷ rs) r h = ground (arith, found-any message rs r)

-- The verdict on a message that is not too long, by the first rule that blocks it.
abbrev pub IsVerdict : Text → List Rule → Option Rule → GuardVerdict → Type 0
IsVerdict message rules (some r) v = (any (blocks message) rules ≡ true) × (v ≡ blocked_by r)
IsVerdict message rules none v =
    (any (blocks message) rules ≡ false)
    × (v.allowed ≡ true)
    × (v.matched ≡ ids_hit message rules)
    × (forces_confirmation v ≡ is_nonempty (ids_hit message rules))

verdict_of-reports :
    (ids : List Text)
    → ((verdict_of ids).allowed ≡ true)
      × ((verdict_of ids).matched ≡ ids)
      × (forces_confirmation (verdict_of ids) ≡ is_nonempty ids)
unfolding verdict_of forces_confirmation
verdict_of-reports [] = (refl, refl, refl)
verdict_of-reports (x ∷ xs) = (refl, refl, refl)

judged-IsVerdict :
    (message : Text) (rules : List Rule) (o : Option Rule)
    → find (blocks message) rules ≡ o
    → IsVerdict message rules o (judged o (ids_hit message rules))
unfolding judged
judged-IsVerdict message rules none e =
    let (a, m, f) = verdict_of-reports (ids_hit message rules) in
    (find-any message rules e, a, m, f)
judged-IsVerdict message rules (some r) e = (found-any message rules r e, refl)

-- A message of more than 4000 characters is refused. Of the others those are refused that a
-- blocking rule hits, in the name of the first such rule, even when rules that only flag stand
-- before it. A message that is allowed reports all rules that hit it, and forces confirmation when
-- there are any.
pub screen-IsVerdict :
    (rules : List Rule) (message : Text)
    → (max_input_chars < length message → screen rules message ≡ too_long)
      × (length message ≤ max_input_chars
          → IsVerdict message rules (find (blocks message) rules) (screen rules message))
unfolding screen
screen-IsVerdict rules message = (
  (λ h. ground arith),
  λ h.
      let short : ltb max_input_chars (length message) ≡ false = ground arith in
      rw short (rw (apply_rules-judged message [] rules) (judged-IsVerdict message rules _ refl)),
)
