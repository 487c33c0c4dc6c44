-- ===== src/Guardrails/Response/Raises.antt =====
-- When the parsing of a reply raises, and what it claims otherwise.
use omnicare_genai_assessmen.Prelude.{
  ℕ, zero, suc, ◌*◌, ◌≡◌, ◌≤◌, ◌⊎◌, ◌↔◌, inl, inr, refl, sym, ◌∙◌, min, ◌/◌, ◌||◌, leb, Bool, true,
  false, Option, none, some, List, [], ◌∷◌, arith, Bool-cases, IfOk,
}
use mathlib.Core.Option
use omnicare_genai_assessmen.Text.{Text, strip}
use omnicare_genai_assessmen.Guardrails.Json.{
  Float, finite, infinite, nan, too_large, Json, null, boolean, number, string, array, object,
  Members,
}
use omnicare_genai_assessmen.Guardrails.Response.{
  Answer, plain_answer, tool_call_answer, clamped, as_confidence, unfence, parsed_object,
  is_tool_call, answer_in, raw_citations, raw_confidence, claimed_citations, from_answer,
  from_object, parse_stripped, parse_answer, structured_answer, with_citations,
}

-- What a loop over the citations would raise for.
abbrev pub IsCount : Option Json → Type 0
IsCount o = ((b : Bool) × (o ≡ some (boolean b))) ⊎ ((f : Float) × (o ≡ some (number f)))

-- An integer that is no float.
abbrev pub IsHuge : Option Json → Type 0
IsHuge o = o ≡ some (number too_large)

-- A reply that is an object with a text, and with a number or a truth value for citations or an
-- integer for a confidence that is too large for a float.
pub record Counts (text : Text) : Type 0 where
  pub members : Members
  pub said : Text
  pub nonempty : (strip text ≡ []) → ⊥
  pub parsed : parsed_object (unfence text).1 ≡ some members
  pub no_call : is_tool_call members ≡ false
  pub answered : answer_in members ≡ some said
  pub failing : IsCount (raw_citations members) ⊎ IsHuge (raw_confidence members)

pub no_some {κ ℓ} : {A : Type κ} {B : Type ℓ} (a : A) → some a ≡ none → B
no_some a h = cc

claimed-IsCount : (o : Option Json) → claimed_citations o ≡ none → IsCount o
unfolding claimed_citations
claimed-IsCount none h = no_some _ h
claimed-IsCount (some null) h = no_some _ h
claimed-IsCount (some (string s)) h = no_some _ h
claimed-IsCount (some (array is)) h = no_some _ h
claimed-IsCount (some (object ms)) h = no_some _ h
claimed-IsCount (some (boolean b)) h = inl (b, refl)
claimed-IsCount (some (number f)) h = inr (f, refl)

IsCount-claimed : (o : Option Json) → IsCount o → claimed_citations o ≡ none
unfolding claimed_citations
IsCount-claimed o (inl (b, e)) = rw e refl
IsCount-claimed o (inr (f, e)) = rw e refl

as_confidence-IsHuge : (u : ℕ) (o : Option Json) → as_confidence u o ≡ none → IsHuge o
unfolding as_confidence
as_confidence-IsHuge u none h = no_some _ h
as_confidence-IsHuge u (some null) h = no_some _ h
as_confidence-IsHuge u (some (string s)) h = no_some _ h
as_confidence-IsHuge u (some (array is)) h = no_some _ h
as_confidence-IsHuge u (some (object ms)) h = no_some _ h
as_confidence-IsHuge u (some (boolean b)) h = no_some _ h
as_confidence-IsHuge u (some (number too_large)) h = refl
as_confidence-IsHuge u (some (number (finite s n d))) h = no_some _ h
as_confidence-IsHuge u (some (number (infinite s))) h = no_some _ h
as_confidence-IsHuge u (some (number nan)) h = no_some _ h

IsHuge-as_confidence : (u : ℕ) (o : Option Json) → IsHuge o → as_confidence u o ≡ none
unfolding as_confidence
IsHuge-as_confidence u o e = rw e refl

bind-none {ℓ} :
    {A B : Type ℓ} (o : Option A) (f : A → Option B)
    → Option.bind o f ≡ none
    → (o ≡ none) ⊎ ((a : A) × (f a ≡ none))
unfolding Option.bind
bind-none none f h = inl refl
bind-none (some a) f h = inr (a, h)

none-bind {ℓ} :
    {A B : Type ℓ} (o : Option A) (f : A → Option B)
    → (o ≡ none) ⊎ ((a : A) → f a ≡ none)
    → Option.bind o f ≡ none
unfolding Option.bind
none-bind none f h = refl
none-bind (some a) f (inl h) = no_some a h
none-bind (some a) f (inr h) = h a

pub map-none {ℓ} : {A B : Type ℓ} (f : A → B) (o : Option A) → Option.map f o ≡ none → o ≡ none
map-none f none h = refl
map-none f (some a) h = cc

from_answer-none :
    (u : ℕ) (text : Text) (ms : Members) (o : Option Text)
    → from_answer u text ms o ≡ none
    → (t : Text) × (o ≡ some t) × (IsCount (raw_citations ms) ⊎ IsHuge (raw_confidence ms))
unfolding from_answer
from_answer-none u text ms none h = no_some _ h
from_answer-none u text ms (some t) h = (
  t,
  refl,
  elim (bind-none (claimed_citations (raw_citations ms)) _ h) [
    | inl e ↦ inl (claimed-IsCount (raw_citations ms) e)
    | inr (cs, e) ↦ inr (
        as_confidence-IsHuge u (raw_confidence ms)
          (map-none _ (as_confidence u (raw_confidence ms)) e))
  ],
)

from_object-none :
    (u : ℕ) (text : Text) (o : Option Members)
    → ((strip text ≡ []) → ⊥)
    → o ≡ parsed_object (unfence text).1
    → from_object u text o ≡ none
    → Counts text
unfolding from_object
from_object-none u text none n p h = no_some _ h
from_object-none u text (some ms) n p h = elim (Bool-cases (is_tool_call ms)) [
  | inl y ↦ no_some _ (rw y at h)
  | inr f ↦
      let (t, said, counts) = from_answer-none u text ms (answer_in ms) (rw f at h) in
      record {
        members = ms;
        said = t;
        nonempty = n;
        parsed = sym p;
        no_call = f;
        answered = said;
        failing = counts;
      }
]

no_cons : (c : ℕ) (s : Text) → ((c ∷ s) ≡ []) → ⊥
no_cons c s h = cc

parse_stripped-none :
    (u : ℕ) (text s : Text) → s ≡ strip text → parse_stripped u text s ≡ none → Counts text
unfolding parse_stripped
parse_stripped-none u text [] e h = no_some _ h
parse_stripped-none u text (c ∷ s) e h =
    from_object-none u text (parsed_object (unfence text).1) (λ n. no_cons c s (e ∙ n)) refl h

failing-none :
    (u : ℕ) (ms : Members) (text t : Text)
    → IsCount (raw_citations ms) ⊎ IsHuge (raw_confidence ms)
    → from_answer u text ms (some t) ≡ none
unfolding from_answer
failing-none u ms text t (inl n) =
    none-bind (claimed_citations (raw_citations ms)) _ (inl (IsCount-claimed (raw_citations ms) n))
failing-none u ms text t (inr n) =
    none-bind (claimed_citations (raw_citations ms)) _
      (inr (λ cs. rw (IsHuge-as_confidence u (raw_confidence ms) n) refl))

Counts-from :
    (u : ℕ) (text : Text) → Counts text → from_object u text (parsed_object (unfence text).1) ≡ none
unfolding from_object
Counts-from u text c =
    rw c.parsed (rw c.no_call (rw c.answered (failing-none u c.members text c.said c.failing)))

Counts-stripped :
    (u : ℕ) (text s : Text) → s ≡ strip text → Counts text → parse_stripped u text s ≡ none
unfolding parse_stripped
Counts-stripped u text [] e c = absurd (c.nonempty (sym e))
Counts-stripped u text (d ∷ s) e c = Counts-from u text c

-- Where JSON is nested no deeper than Python reads it, the parsing of a reply raises exactly when
-- the reply is an object that is no tool call, that has a text, and whose citations are a number or
-- a truth value, over which the loop cannot go, or whose confidence is an integer that is too large
-- for a float.
pub parse_answer-raises : (u : ℕ) (text : Text) → (parse_answer u text ≡ none) ↔ Counts text
unfolding parse_answer
parse_answer-raises u text =
    (parse_stripped-none u text (strip text) refl, Counts-stripped u text (strip text) refl)

-- What a reply that was parsed claims: a confidence of at most 1, none where the reply was prose,
-- and not to know where it was a tool call written out.
pub record IsReply (u : ℕ) (text : Text) (a : Answer) : Type 0 where
  pub bounded : IfOk (λ (n : ℕ). n ≤ 100 * u) a.confidence
  pub prose :
      a.structured ≡ false
      → (a.confidence ≡ none)
        × (a.unknown ≡ false)
        × (a.citations ≡ [])
        × ((a.text ≡ strip text) ⊎ (a.text ≡ text))
  pub call :
      a.tool_call_as_text ≡ true → (a.text ≡ []) × (a.unknown ≡ true) × (a.confidence ≡ some 0)

min-right : (a b : ℕ) → min b a ≤ b
min-right a b = omega arith

clamped-bound : (u : ℕ) (percent : Bool) (f : Float) → clamped u percent f ≤ 100 * u
unfolding clamped
clamped-bound u p (finite true n d) = omega arith
clamped-bound u p (finite false n zero) = omega arith
clamped-bound u p (finite false n (suc d)) = elim (Bool-cases (p || leb (10 * suc d) n)) [
  | inl y ↦ rw y (min-right (n * u / suc d) (100 * u))
  | inr f ↦ rw f (min-right (n * (100 * u) / suc d) (100 * u))
]
clamped-bound u p (infinite true) = omega arith
clamped-bound u p (infinite false) = omega arith
clamped-bound u p nan = omega arith
clamped-bound u p too_large = omega arith

map-clamped :
    (u : ℕ) (p : Bool) (o : Option Float)
    → IfOk (λ (n : ℕ). n ≤ 100 * u) (Option.map (clamped u p) o)
map-clamped u p none = tt
map-clamped u p (some f) = clamped-bound u p f

as_confidence-bound :
    (u : ℕ) (o : Option Json)
    → IfOk (λ (c : Option ℕ). IfOk (λ (n : ℕ). n ≤ 100 * u) c) (as_confidence u o)
unfolding as_confidence
as_confidence-bound u none = tt
as_confidence-bound u (some null) = tt
as_confidence-bound u (some (boolean b)) = tt
as_confidence-bound u (some (number too_large)) = tt
as_confidence-bound u (some (number (finite s n d))) = clamped-bound u false (finite s n d)
as_confidence-bound u (some (number (infinite s))) = clamped-bound u false (infinite s)
as_confidence-bound u (some (number nan)) = clamped-bound u false nan
as_confidence-bound u (some (string s)) = map-clamped u _ _
as_confidence-bound u (some (array is)) = tt
as_confidence-bound u (some (object ms)) = tt

plain-IsReply :
    (u : ℕ) (text s : Text) → (s ≡ strip text) ⊎ (s ≡ text) → IsReply u text (plain_answer s)
plain-IsReply u text s e = record {
  bounded = tt;
  prose = λ h. (refl, refl, refl, e);
  call = λ h. cc;
}

confident-IsReply :
    (u : ℕ) (text : Text) (ms : Members) (t : Text) (cs : List Text) (o : Option (Option ℕ))
    → IfOk (λ (c : Option ℕ). IfOk (λ (n : ℕ). n ≤ 100 * u) c) o
    → IfOk (IsReply u text) (Option.map (λ c. with_citations (structured_answer c ms t) cs) o)
unfolding structured_answer
confident-IsReply u text ms t cs none h = tt
confident-IsReply u text ms t cs (some c) h = record {
  bounded = h;
  prose = λ h. cc;
  call = λ h. cc;
}

structured-IsReply :
    (u : ℕ) (text : Text) (ms : Members) (t : Text) (o : Option (List Text))
    → IfOk (IsReply u text) (
        Option.bind o (λ cs.
          Option.map
            (λ c. with_citations (structured_answer c ms t) cs)
            (as_confidence u (raw_confidence ms))))
unfolding Option.bind
structured-IsReply u text ms t none = tt
structured-IsReply u text ms t (some cs) =
    confident-IsReply u text ms t cs _ (as_confidence-bound u (raw_confidence ms))

from_answer-IsReply :
    (u : ℕ) (text : Text) (ms : Members) (o : Option Text)
    → IfOk (IsReply u text) (from_answer u text ms o)
unfolding from_answer
from_answer-IsReply u text ms none = plain-IsReply u text (strip text) (inl refl)
from_answer-IsReply u text ms (some t) = structured-IsReply u text ms t _

tool_call-IsReply : (u : ℕ) (text : Text) → IsReply u text tool_call_answer
tool_call-IsReply u text = record {
  bounded = omega arith;
  prose = λ h. cc;
  call = λ h. (refl, refl, refl);
}

from_object-IsReply :
    (u : ℕ) (text : Text) (o : Option Members) → IfOk (IsReply u text) (from_object u text o)
unfolding from_object
from_object-IsReply u text none = plain-IsReply u text (strip text) (inl refl)
from_object-IsReply u text (some ms) = elim (Bool-cases (is_tool_call ms)) [
  | inl y ↦ rw y (tool_call-IsReply u text)
  | inr f ↦ rw f (from_answer-IsReply u text ms (answer_in ms))
]

parse_stripped-IsReply : (u : ℕ) (text s : Text) → IfOk (IsReply u text) (parse_stripped u text s)
unfolding parse_stripped
parse_stripped-IsReply u text [] = plain-IsReply u text text (inr refl)
parse_stripped-IsReply u text (c ∷ s) = from_object-IsReply u text _

-- A reply that is parsed claims a confidence of at most 1. A reply that was no structured answer is
-- the text, as it is or without the blanks around it, and claims no confidence, no citation and not
-- to know nothing; a tool call written out is an empty text that claims not to know.
pub parse_answer-IsReply : (u : ℕ) (text : Text) → IfOk (IsReply u text) (parse_answer u text)
unfolding parse_answer
parse_answer-IsReply u text = parse_stripped-IsReply u text (strip text)
