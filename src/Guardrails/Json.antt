-- ===== src/Guardrails/Json.antt =====
-- What `json.loads` makes of a text, for backend/libs/guardrails/response.py: the values of
-- Python's `json`, read the way its decoder does.
use omnicare_genai_assessmen.Prelude.{
  ℕ, zero, suc, ◌+◌, ◌-◌, ◌*◌, ◌^◌, Bool, true, false, ◌&&◌, ◌||◌, Option, none, some, List, [],
  ◌∷◌, ◌++◌, if◌then◌else◌, ltb, leb, ◌==◌, length, drop,
}
use mathlib.Core.Option
use omnicare_genai_assessmen.Text.{
  Text, codes, same, starts_with, without, decimal, is_digit, between,
}
use omnicare_genai_assessmen.Text.Regex.{
  Regex, one, star, group, text_end, Match, match_at, begin, group_of,
}
use omnicare_genai_assessmen.Text.Regex.Syntax.{
  ◌∘◌, ◌∣◌, opt, plus, digit, literal, literal_i, in_set,
}

-- A `float`: whether it is negative, its numerator and its denominator.
pub data Float : Type 0 where
  finite : Bool → ℕ → ℕ → Float
  infinite : Bool → Float
  nan : Float
  too_large : Float  -- an integer of which `float` raises an OverflowError

mutual
  pub data Json : Type 0 where
    null : Json
    boolean : Bool → Json
    number : Float → Json
    string : Text → Json
    array : Items → Json
    object : Members → Json

  pub data Items : Type 0 where
    nil : Items
    item : Json → Items → Items

  pub data Members : Type 0 where
    end : Members
    member : Text → Json → Members → Members

-- A number from its groups: the sign, the digits before and behind the point, the sign and the
-- digits of the exponent.
float_of : List (ℕ × Text) → Float
unfolding group_of decimal without same
float_of groups =
    let fraction = without b'_' (group_of 3 groups) in
    let digits = decimal 0 (without b'_' (group_of 2 groups) ++ fraction) in
    let exponent = decimal 0 (without b'_' (group_of 5 groups)) in
    let negative = same (group_of 1 groups) (codes "-") in
    if same (group_of 4 groups) (codes "-")
    then finite negative digits (10 ^ (length fraction + exponent))
    else finite negative (digits * 10 ^ exponent) (10 ^ length fraction)

exponent_part : Regex → Regex
exponent_part digits = opt (literal_i "e" ∘ opt (group 4 (in_set "+-")) ∘ group 5 digits)

-- `NUMBER_RE` of the decoder
json_number : Regex
unfolding exponent_part
json_number =
    opt (group 1 (literal "-"))
    ∘ group 2 (literal "0" ∣ (one (between b'1' b'9') ∘ star digit))
    ∘ opt (literal "." ∘ group 3 (plus digit))
    ∘ exponent_part (plus digit)

-- The digits that `float` reads, with single underscores between them.
float_digits : Regex
float_digits = digit ∘ star (opt (literal "_") ∘ digit)

float_number : Regex
unfolding exponent_part float_digits
float_number =
    opt (group 1 (in_set "+-"))
    ∘ ((group 2 float_digits ∘ opt (literal "." ∘ opt (group 3 float_digits)))
        ∣ (literal "." ∘ group 3 float_digits))
    ∘ exponent_part float_digits
    ∘ text_end

float_name : Regex
float_name =
    opt (group 1 (in_set "+-"))
    ∘ (group 2 (literal_i "nan") ∣ (literal_i "inf" ∘ opt (literal_i "inity")))
    ∘ text_end

named_float : List (ℕ × Text) → Float
unfolding group_of same
named_float groups = elim (group_of 2 groups) [
  | [] ↦ infinite (same (group_of 1 groups) (codes "-"))
  | c ∷ s ↦ nan
]

-- `float(s)` of a text without blanks around it; `none` for a `ValueError`
unfoldable pub read_float : Text → Option Float
unfolding float_number float_of float_name named_float match_at begin
read_float s = elim (match_at float_number (begin s)) [
  | some m ↦ some (float_of m.captured)
  | none ↦ Option.map (λ (m : Match). named_float m.captured) (match_at float_name (begin s))
]

abbrev is_blank : ℕ → Bool
is_blank c = (c == 32) || (c == 9) || (c == 10) || (c == 13)

pub skip_blanks : Text → Text
skip_blanks [] = []
skip_blanks (c ∷ s) = let rest = skip_blanks s in if is_blank c then rest else c ∷ s

hex_digit : ℕ → Option ℕ
hex_digit c =
    if is_digit c
    then some (c - b'0')
    else if between b'a' b'f' c
    then some (c - 87)
    else if between b'A' b'F' c
    then some (c - 55)
    else none

hex_four : ℕ → ℕ → Text → Option (ℕ × Text)
unfolding hex_digit
hex_four zero n s = some (n, s)
hex_four (suc k) n [] = none
hex_four (suc k) n (c ∷ s) = elim (hex_digit c) [ none ↦ none | some d ↦ hex_four k (n * 16 + d) s ]

-- What stands next in a string.
pub data Piece : Type 0 where
  closed : Text → Piece
  char : ℕ → Text → Piece
  malformed : Piece

-- The second half of a surrogate pair, if there is one.
paired : ℕ → Text → Option (ℕ × Text) → Piece
paired high rest none = malformed
paired high rest (some (low, after)) =
    if between 56320 57343 low
    then char (65536 + ((high - 55296) * 1024 + (low - 56320))) after
    else char high rest

unicode_piece : Option (ℕ × Text) → Piece
unfolding paired hex_four starts_with
unicode_piece none = malformed
unicode_piece (some (n, [])) = char n []
unicode_piece (some (n, c ∷ [])) = char n (c ∷ [])
unicode_piece (some (n, c ∷ d ∷ s)) =
    if between 55296 56319 n && (c == 92) && (d == b'u')
    then paired n (c ∷ d ∷ s) (hex_four 4 0 s)
    else char n (c ∷ d ∷ s)

escape_piece : Text → Piece
unfolding unicode_piece hex_four
escape_piece [] = malformed
escape_piece (c ∷ s) =
    if (c == 34) || (c == 92) || (c == b'/')
    then char c s
    else if c == b'b'
    then char 8 s
    else if c == b'f'
    then char 12 s
    else if c == b'n'
    then char 10 s
    else if c == b'r'
    then char 13 s
    else if c == b't'
    then char 9 s
    else if c == b'u'
    then unicode_piece (hex_four 4 0 s)
    else malformed

piece : Text → Piece
unfolding escape_piece
piece [] = malformed
piece (c ∷ s) =
    if c == 34
    then closed s
    else if c == 92
    then escape_piece s
    else if ltb c 32
    then malformed
    else char c s

abbrev put_first : ℕ → Text × Text → Text × Text
put_first c (s, rest) = (c ∷ s, rest)

-- A string behind its opening quote, on fuel: each piece consumes a character.
pub read_string : ℕ → Text → Option (Text × Text)
unfolding piece
read_string zero s = none
read_string (suc n) s = elim (piece s) [
  | closed rest ↦ some ([], rest)
  | char c rest ↦ Option.map (put_first c) (read_string n rest)
  | malformed ↦ none
]

string_at : Text → Option (Text × Text)
unfolding read_string
string_at s = read_string (suc (length s)) s

-- How a value begins.
pub data Start : Type 0 where
  at_string at_object at_array at_other at_end : Start

start_of : Text → Start
start_of [] = at_end
start_of (c ∷ s) =
    if c == 34
    then at_string
    else if c == b'{'
    then at_object
    else if c == b'['
    then at_array
    else at_other

abbrev rest_of : Text → Text
rest_of [] = []
rest_of (c ∷ s) = s

constant : List (Text × Json) → Text → Option (Json × Text)
unfolding starts_with
constant [] s = none
constant ((name, v) ∷ cs) s =
    let rest = constant cs s in if starts_with name s then some (v, drop (length name) s) else rest

constants : List (Text × Json)
constants =
    (codes "null", null)
    ∷ (codes "true", boolean true)
    ∷ (codes "false", boolean false)
    ∷ (codes "NaN", number nan)
    ∷ (codes "Infinity", number (infinite false))
    ∷ (codes "-Infinity", number (infinite true))
    ∷ []

-- The integers from here on are rounded to no float.
float_limit : ℕ
float_limit = 2 ^ 1024 - 2 ^ 970

-- An integer is read as one: no point and no exponent.
integer_of : Float → Float
unfolding float_limit
integer_of (finite negative n d) = if leb float_limit n then too_large else finite negative n d
integer_of f = f

-- `int` raises a ValueError on more than 4300 digits, and the whole text is not read then.
number_of : List (ℕ × Text) → Option Float
unfolding integer_of float_of group_of same
number_of groups =
    if same (group_of 3 groups) [] && same (group_of 5 groups) []
    then if ltb 4300 (length (group_of 2 groups)) then none else some (integer_of (float_of groups))
    else some (float_of groups)

other_value : Text → Option (Json × Text)
unfolding json_number number_of constant constants match_at begin
other_value s = elim (match_at json_number (begin s)) [
  | some m ↦ Option.map (λ f. (number f, m.tail.rest)) (number_of m.captured)
  | none ↦ constant constants s
]

-- How a list goes on behind an element.
pub data Mark : Type 0 where
  comma close bad : Mark

mark_of : ℕ → Text → Mark
mark_of closing [] = bad
mark_of closing (c ∷ s) = if c == b',' then comma else if c == closing then close else bad

-- Whether a name and a colon stand next, and what is behind them.
key_at : Text → Option (Text × Text)
key_at [] = none
key_at (c ∷ s) = if c == 34 then string_at s else none

behind : ℕ → Text → Option Text
behind d [] = none
behind d (c ∷ s) = if c == d then some s else none

named : Text → Option (Text × Text)
unfolding key_at string_at behind skip_blanks
named s = elim (key_at s) [
  | none ↦ none
  | some (key, rest) ↦
      Option.map (λ (r : Text). (key, skip_blanks r)) (behind b':' (skip_blanks rest))
]

abbrev as_string : Text × Text → Json × Text
as_string (s, rest) = (string s, rest)

abbrev as_object : Members × Text → Json × Text
as_object (ms, rest) = (object ms, rest)

abbrev as_array : Items × Text → Json × Text
as_array (is, rest) = (array is, rest)

abbrev more_items : Json → Items × Text → Items × Text
more_items v (is, rest) = (item v is, rest)

abbrev more_members : Text → Json → Members × Text → Members × Text
more_members key v (ms, rest) = (member key v ms, rest)

-- The scanner, on fuel: no two calls in a row read nothing.
unfoldable mutual
  unfolding start_of string_at other_value mark_of named skip_blanks

  pub value_at : ℕ → Text → Option (Json × Text)
  value_at zero s = none
  value_at (suc n) s = elim (start_of s) [
    | at_string ↦ Option.map as_string (string_at (rest_of s))
    | at_object ↦ elim (mark_of b'}' (skip_blanks (rest_of s))) [
      | close ↦ some (object end, rest_of (skip_blanks (rest_of s)))
      | _ ↦ Option.map as_object (members_at n (skip_blanks (rest_of s)))
    ]
    | at_array ↦ elim (mark_of b']' (skip_blanks (rest_of s))) [
      | close ↦ some (array nil, rest_of (skip_blanks (rest_of s)))
      | _ ↦ Option.map as_array (items_at n (skip_blanks (rest_of s)))
    ]
    | at_other ↦ other_value s
    | at_end ↦ none
  ]

  pub items_at : ℕ → Text → Option (Items × Text)
  items_at zero s = none
  items_at (suc n) s = elim (value_at n s) [
    | none ↦ none
    | some (v, rest) ↦ elim (mark_of b']' (skip_blanks rest)) [
      | bad ↦ none
      | close ↦ some (item v nil, rest_of (skip_blanks rest))
      | comma ↦ Option.map (more_items v) (items_at n (skip_blanks (rest_of (skip_blanks rest))))
    ]
  ]

  pub members_at : ℕ → Text → Option (Members × Text)
  members_at zero s = none
  members_at (suc n) s = elim (named s) [
    | none ↦ none
    | some (key, after) ↦ elim (value_at n after) [
      | none ↦ none
      | some (v, rest) ↦ elim (mark_of b'}' (skip_blanks rest)) [
        | bad ↦ none
        | close ↦ some (member key v end, rest_of (skip_blanks rest))
        | comma ↦
            Option.map (more_members key v)
              (members_at n (skip_blanks (rest_of (skip_blanks rest))))
      ]
    ]
  ]

abbrev whole : Json × Text → Option Json
whole (v, []) = some v
whole (v, c ∷ s) = none

abbrev then_blanks : Json × Text → Json × Text
then_blanks (v, s) = (v, skip_blanks s)

-- `json.loads(s)`; `none` for a `JSONDecodeError`
unfoldable pub loads : Text → Option Json
unfolding value_at skip_blanks Option.bind
loads s =
    Option.bind (value_at (2 + 2 * length s) (skip_blanks s))
      (λ (p : Json × Text). whole (then_blanks p))

-- `parsed.get(key)`: of several members of one name the last counts.
abbrev or_earlier : Option Json → Option Json → Option Json
or_earlier none o = o
or_earlier (some v) o = some v

unfoldable pub get : Text → Members → Option Json
unfolding same
get key end = none
get key (member k v ms) = or_earlier (get key ms) (if same k key then some v else none)

float_is_true : Float → Bool
float_is_true (finite s zero d) = false
float_is_true _ = true

-- `bool(v)`
unfoldable pub is_true : Json → Bool
unfolding float_is_true
is_true null = false
is_true (boolean b) = b
is_true (number f) = float_is_true f
is_true (string []) = false
is_true (array nil) = false
is_true (object end) = false
is_true _ = true
