-- ===== src/Guardrails/Screen.antt =====
-- `screen` of backend/libs/guardrails/injection.py. The rules are an argument, as they are there:
-- they are loaded from a file.
pub mod Verdict
use omnicare_genai_assessmen.Prelude.{
  ℕ, Bool, true, false, not, Option, none, some, List, [], ◌∷◌, ◌++◌, ltb, if◌then◌else◌, length,
  any,
}
use omnicare_genai_assessmen.Text.{Text, codes}
use omnicare_genai_assessmen.Text.Regex.{Regex, search_text}

pub data Severity : Type 0 where
  block flag : Severity

pub record Rule : Type 0 where
  pub id : Text
  pub severity : Severity
  pub description : Text
  pub patterns : List Regex

pub record GuardVerdict : Type 0 where
  pub allowed : Bool
  pub matched : List Text
  pub severity : Option Severity
  pub reason : Option Text

is_flag : Option Severity → Bool
is_flag (some flag) = true
is_flag _ = false

unfoldable pub forces_confirmation : GuardVerdict → Bool
unfolding is_flag
forces_confirmation v = is_flag v.severity

abbrev pub max_input_chars : ℕ
max_input_chars = 4000

abbrev is_some {ℓ} : {A : Type ℓ} → Option A → Bool
is_some none = false
is_some (some a) = true

-- Whether one of the rule's patterns is found.
unfoldable pub hits : Text → Rule → Bool
hits message r = any (λ p. is_some (search_text p message)) r.patterns

-- The verdict at the end of the loop.
pub verdict_of : List Text → GuardVerdict
verdict_of [] = record { allowed = true; matched = []; severity = none; reason = none }
verdict_of (id ∷ ids) = record {
  allowed = true;
  matched = id ∷ ids;
  severity = some flag;
  reason = none;
}

pub blocked_by : Rule → GuardVerdict
blocked_by r = record {
  allowed = false;
  matched = r.id ∷ [];
  severity = some block;
  reason = some r.description;
}

pub on_hit : Severity → Rule → GuardVerdict → GuardVerdict
unfolding blocked_by
on_hit block r go_on = blocked_by r
on_hit flag r go_on = go_on

-- The loop over the rules, with the ids flagged so far.
pub apply_rules : Text → List Text → List Rule → GuardVerdict
unfolding hits verdict_of on_hit
apply_rules message flagged [] = verdict_of flagged
apply_rules message flagged (r ∷ rs) =
    let flag_it = apply_rules message (flagged ++ (r.id ∷ [])) rs in
    let skip = apply_rules message flagged rs in
    if hits message r then on_hit r.severity r flag_it else skip

pub too_long : GuardVerdict
too_long = record {
  allowed = false;
  matched = codes "LEN-01" ∷ [];
  severity = some block;
  reason = some (codes "Input exceeds 4000 characters");
}

unfoldable pub screen : List Rule → Text → GuardVerdict
unfolding too_long apply_rules
screen rules message =
    if ltb max_input_chars (length message) then too_long else apply_rules message [] rules
