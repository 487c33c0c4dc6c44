-- ===== src/Retrieval/Chunker.antt =====
-- backend/retrieval/app/chunker.py: a policy document as the sections that can be cited.
pub mod Apart
use omnicare_genai_assessmen.Prelude.{
  ℕ, ◌-◌, Bool, ◌||◌, not, List, [], ◌∷◌, ◌++◌, if◌then◌else◌, ◌==◌, length, take, drop,
}
use omnicare_genai_assessmen.Text.{
  Text, codes, lower, strip, left_strip, right_strip, is_lower, is_digit,
}
use omnicare_genai_assessmen.Text.Regex.{
  Regex, one, star, lazy_star, group, line_start, line_end, Match, find_all, group_of, substitute,
}
use omnicare_genai_assessmen.Text.Regex.Syntax.{◌∘◌, plus, space, literal}
use omnicare_genai_assessmen.Graph.Tools.{format_citation}

-- Without `parent_section`, which is never set, and the score, which the search gives with the
-- chunk.
pub record Chunk : Type 0 where
  pub chunk_id : Text
  pub text : Text
  pub source_file : Text
  pub section_id : Text
  pub section_title : Text
  pub char_start : ℕ
  pub char_end : ℕ
  pub citation : Text

abbrev not_newline : Regex
not_newline = one (λ c. not (c == 10))

-- `_SECTION_RE`
abbrev pub section_pattern : Regex
section_pattern =
    line_start
    ∘ literal "##"
    ∘ plus space
    ∘ group 1 (not_newline ∘ lazy_star not_newline)
    ∘ star space
    ∘ line_end

abbrev is_dash : ℕ → Bool
is_dash c = c == b'-'

or_section : Text → Text
or_section [] = codes "section"
or_section (c ∷ s) = c ∷ s

-- `_slugify`
unfoldable pub slugify : Text → Text
unfolding or_section left_strip right_strip lower
slugify title =
    let dashed =
      substitute (plus (one (λ c. not (is_lower c || is_digit c)))) (λ m. codes "-")
        (lower title) in
    or_section (right_strip is_dash (left_strip is_dash dashed))

before_colon : Text → Text
before_colon [] = []
before_colon (c ∷ s) = let rest = before_colon s in if c == b':' then [] else c ∷ rest

-- Where the section ends: at the next heading or at the end of the text.
pub end_of : Text → List Match → ℕ
end_of text [] = length text
end_of text (m ∷ ms) = m.start

-- `text[i:j]`
abbrev pub slice : ℕ → ℕ → Text → Text
slice i j text = take (j - i) (drop i text)

pub title_of : Match → Text
unfolding strip
title_of m = strip (group_of 1 m.captured)

pub section : Text → Text → Match → ℕ → Text → Chunk
unfolding title_of before_colon
section text file m stop body =
    let id = slugify (before_colon (title_of m)) in
    record {
      chunk_id = file ++ (codes "::" ++ id);
      text = title_of m ++ (codes "\n\n" ++ body);
      source_file = file;
      section_id = id;
      section_title = title_of m;
      char_start = m.start;
      char_end = stop;
      citation = format_citation file (title_of m);
    }

-- A section without a body is left out.
pub with_section : Text → Text → Match → ℕ → Text → List Chunk → List Chunk
unfolding section
with_section text file m stop [] rest = rest
with_section text file m stop (c ∷ body) rest = section text file m stop (c ∷ body) ∷ rest

pub sections : Text → Text → List Match → List Chunk
unfolding with_section end_of strip
sections text file [] = []
sections text file (m ∷ ms) =
    let stop = end_of text ms in
    with_section text file m stop (strip (slice m.stop stop text)) (sections text file ms)

unfoldable pub chunk_markdown : Text → Text → List Chunk
unfolding sections
chunk_markdown text file = sections text file (find_all section_pattern text)
