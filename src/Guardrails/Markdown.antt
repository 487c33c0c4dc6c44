-- ===== src/Guardrails/Markdown.antt =====
-- `strip_markdown` of backend/libs/guardrails/response.py.
use omnicare_genai_assessmen.Prelude.{true, ◌||◌, not, [], ◌∷◌, ◌++◌, if◌then◌else◌, ◌==◌}
use mathlib.Core.List.{reverse}
use omnicare_genai_assessmen.Text.{Text, codes, strip, is_word, is_lower, is_upper, is_digit}
use omnicare_genai_assessmen.Text.Regex.{
  Regex, one, star, lazy_star, group, not_after, not_before, line_start, line_end, Match,
  substitute, group_of,
}
use omnicare_genai_assessmen.Text.Regex.Syntax.{
  ◌∘◌, ◌∣◌, opt, plus, at_most, digit, literal, in_set, not_in_set, member,
}

abbrev blanks : Regex
blanks = star (in_set " \t")

-- `[A-Za-z0-9_+-]*`
abbrev pub language_name : Regex
language_name = star (one (λ c. is_lower c || is_upper c || is_digit c || member (codes "_+-") c))

-- `.` without and with `re.S`
abbrev pub not_newline : Regex
not_newline = one (λ c. not (c == 10))

abbrev pub any_char : Regex
any_char = one (λ c. true)

abbrev pub newline : Regex
newline = opt (one (λ c. c == 13)) ∘ one (λ c. c == 10)

-- `_MD_FENCE`, `_MD_HEADING`, `_MD_BULLET`, `_MD_ORDERED`, `_MD_BOLD`, `_MD_ITALIC`, `_MD_LINK`,
-- `_MD_CODE`, `_MD_RULE`
abbrev pub fence_mark : Regex
fence_mark = literal "```" ∘ language_name ∘ opt (one (λ c. c == 13)) ∘ opt (one (λ c. c == 10))

abbrev pub heading : Regex
heading =
    line_start
    ∘ at_most 3 (in_set " \t")
    ∘ literal "#"
    ∘ at_most 5 (literal "#")
    ∘ blanks
    ∘ group 1 (not_newline ∘ lazy_star not_newline)
    ∘ blanks
    ∘ star (literal "#")
    ∘ blanks
    ∘ line_end

abbrev pub bullet : Regex
bullet = line_start ∘ blanks ∘ in_set "-*+" ∘ plus (in_set " \t")

abbrev pub ordered : Regex
ordered = line_start ∘ blanks ∘ group 1 (plus digit) ∘ in_set ".)" ∘ plus (in_set " \t")

abbrev pub bold : Regex
bold = literal "**" ∘ group 1 (any_char ∘ lazy_star any_char) ∘ literal "**"

abbrev pub italic : Regex
italic =
    not_after (λ c. (c == b'*') || is_word c)
    ∘ in_set "*_"
    ∘ group 1 (plus (not_in_set "*_\n"))
    ∘ in_set "*_"
    ∘ not_before (λ c. (c == b'*') || is_word c)

abbrev pub link : Regex
link =
    literal "["
    ∘ group 1 (plus (not_in_set "]"))
    ∘ literal "]"
    ∘ literal "("
    ∘ star (not_in_set ")")
    ∘ literal ")"

abbrev pub inline_code : Regex
inline_code = literal "`" ∘ group 1 (plus (not_in_set "`\n")) ∘ literal "`"

-- A rule of one of three characters, the same throughout.
abbrev rule_of : Regex → Regex
rule_of mark =
    let again = blanks ∘ mark in line_start ∘ blanks ∘ mark ∘ again ∘ plus again ∘ blanks ∘ line_end

abbrev pub horizontal_rule : Regex
horizontal_rule = rule_of (literal "-") ∣ rule_of (literal "*") ∣ rule_of (literal "_")

-- `_as_sentence`
unfoldable pub as_sentence : Text → Text
unfolding strip
as_sentence s =
    let title = strip s in
    elim (reverse title) [
      | [] ↦ codes "."
      | c ∷ rest ↦ if member (codes ".!?:") c then title else title ++ codes "."
    ]

abbrev first_group : Match → Text
first_group m = group_of 1 m.captured

abbrev gone : Match → Text
gone m = []

unfoldable pub strip_markdown : Text → Text
unfolding as_sentence strip
strip_markdown text =
    let unfenced = substitute fence_mark gone text in
    let unruled = substitute horizontal_rule gone unfenced in
    let unlinked = substitute link first_group unruled in
    let titled = substitute heading (λ m. as_sentence (group_of 1 m.captured)) unlinked in
    let unlisted = substitute ordered gone (substitute bullet gone titled) in
    let unbold = substitute bold first_group unlisted in
    let unitalic = substitute italic first_group unbold in
    let uncoded = substitute inline_code first_group unitalic in
    let spaced = substitute (in_set " \t" ∘ plus (in_set " \t")) (λ m. codes " ") uncoded in
    strip (substitute (literal "\n\n" ∘ plus (literal "\n")) (λ m. codes "\n\n") spaced)
