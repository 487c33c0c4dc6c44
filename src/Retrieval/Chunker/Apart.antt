-- ===== src/Retrieval/Chunker/Apart.antt =====
-- Where the sections of a document come from.
use omnicare_genai_assessmen.Prelude.{
  ℕ, ◌+◌, ◌∙◌, ◌⊎◌, inl, inr, ◌≡◌, ◌≤◌, refl, sym, List, [], ◌∷◌, ◌++◌, arith, length,
  length-append,
}
use mathlib.Core.Path.{subst}
use omnicare_genai_assessmen.Text.{Text, codes, strip}
use omnicare_genai_assessmen.Text.Regex.{Match, find_all, group_of}
use omnicare_genai_assessmen.Text.Regex.Placed.{Placed, Spread, find_all-Spread}
use omnicare_genai_assessmen.Graph.Tools.{format_citation}
use omnicare_genai_assessmen.Retrieval.Chunker.{
  Chunk, section_pattern, end_of, slice, title_of, section, with_section, sections, chunk_markdown,
}

-- The chunk of a heading whose section ends at the place: it begins with the heading and ends
-- there, its title is the heading's, its text is the title with what stands between the heading and
-- the end, and its citation names the title.
pub record IsSectionOf (text file : Text) (m : Match) (stop : ℕ) (c : Chunk) : Type 0 where
  pub ordered : (m.start ≤ m.stop) × (m.stop ≤ stop) × (stop ≤ length text)
  pub span : (c.char_start ≡ m.start) × (c.char_end ≡ stop)
  pub titled : c.section_title ≡ strip (group_of 1 m.captured)
  pub said : c.text ≡ c.section_title ++ (codes "\n\n" ++ strip (slice m.stop stop text))
  pub cited : c.citation ≡ format_citation file c.section_title
  pub named : c.chunk_id ≡ file ++ (codes "::" ++ c.section_id)

-- Every heading has its chunk, and in order, but for those with nothing but blanks between them and
-- the next heading or the end of the text.
abbrev pub Sections : Text → Text → List Match → List Chunk → Type 0
Sections text file [] cs = cs ≡ []
Sections text file (m ∷ ms) cs =
    let stop = end_of text ms in
    let body = strip (slice m.stop stop text) in
    ((body ≡ []) × Sections text file ms cs)
    ⊎ (((body ≡ []) → ⊥)
        × ((c : Chunk) × (rest : List Chunk) × (cs ≡ c ∷ rest)
            × IsSectionOf text file m stop c
            × Sections text file ms rest))

-- The chunks begin at the place or behind it, each behind the one before.
abbrev pub Apart : ℕ → List Chunk → Type 0
Apart i [] = Unit
Apart i (c ∷ cs) = (i ≤ c.char_start) × Apart c.char_end cs

Apart-from : (i j : ℕ) (cs : List Chunk) → i ≤ j → Apart j cs → Apart i cs
Apart-from i j [] l h = tt
Apart-from i j (c ∷ cs) l h = (omega (arith, l, h.0), h.1)

-- What a match leaves of the text.
Placed-size :
    (i : ℕ) (s : Text) (m : Match)
    → Placed i s m
    → (i ≤ m.start) × (m.start ≤ m.stop) × (i + length s ≡ m.stop + length m.tail.rest)
Placed-size i s m p =
    let size : length s ≡ length p.gap + (length m.matched + length m.tail.rest) =
      subst (λ (t : Text). length t ≡ length p.gap + (length m.matched + length m.tail.rest))
        (sym p.text)
        (omega (
          arith,
          length-append p.gap (m.matched ++ m.tail.rest),
          length-append m.matched m.tail.rest,
        )) in
    (omega (arith, p.start), omega (arith, p.stop), omega (arith, p.start, p.stop, size))

end_of-bounds :
    (text s : Text) (i : ℕ) (ms : List Match)
    → Spread i s ms
    → i + length s ≡ length text
    → (i ≤ end_of text ms) × (end_of text ms ≤ length text)
unfolding end_of
end_of-bounds text s i [] h e = (omega (arith, e), omega arith)
end_of-bounds text s i (m ∷ ms) h e =
    let (a, b, c) = Placed-size i s m h.0 in (a, omega (arith, b, c, e))

no_cons : (c : ℕ) (s : Text) → ((c ∷ s) ≡ []) → ⊥
no_cons c s h = cc

section-IsSectionOf :
    (text file : Text) (m : Match) (stop : ℕ) (body : Text)
    → m.start ≤ m.stop
    → m.stop ≤ stop
    → stop ≤ length text
    → body ≡ strip (slice m.stop stop text)
    → IsSectionOf text file m stop (section text file m stop body)
unfolding section title_of
section-IsSectionOf text file m stop body a b c e = record {
  ordered = (a, b, c);
  span = (refl, refl);
  titled = refl;
  said =
      subst (λ (t : Text). title_of m ++ (codes "\n\n" ++ body) ≡ title_of m ++ (codes "\n\n" ++ t))
        e refl;
  cited = refl;
  named = refl;
}

-- The sections of the headings, which do not overlap.
pub record Sectioned (text file : Text) (ms : List Match) (i : ℕ) (cs : List Chunk) : Type 0 where
  pub each : Sections text file ms cs
  pub apart : Apart i cs

with_section-Sectioned :
    (text file : Text) (m : Match) (ms : List Match) (body : Text) (rest : List Chunk)
    → m.start ≤ m.stop
    → m.stop ≤ end_of text ms
    → end_of text ms ≤ length text
    → body ≡ strip (slice m.stop (end_of text ms) text)
    → Sectioned text file ms (end_of text ms) rest
    → Sectioned text file (m ∷ ms) m.start (with_section text file m (end_of text ms) body rest)
unfolding with_section section
with_section-Sectioned text file m ms [] rest a b c e h = record {
  each = inl (sym e, h.each);
  apart = Apart-from m.start (end_of text ms) rest (omega (arith, a, b)) h.apart;
}
with_section-Sectioned text file m ms (d ∷ body) rest a b c e h = record {
  each = inr (
    λ n. no_cons d body (e ∙ n),
    (
      section text file m (end_of text ms) (d ∷ body),
      rest,
      refl,
      section-IsSectionOf text file m (end_of text ms) (d ∷ body) a b c e,
      h.each,
    ),
  );
  apart = (omega arith, h.apart);
}

sections-Sectioned :
    (text file s : Text) (i : ℕ) (ms : List Match)
    → Spread i s ms
    → i + length s ≡ length text
    → Sectioned text file ms (end_of text ms) (sections text file ms)
unfolding sections end_of
sections-Sectioned text file s i [] h e = record { each = refl; apart = tt }
sections-Sectioned text file s i (m ∷ ms) h e =
    let (a, b, c) = Placed-size i s m h.0 in
    let e' : m.stop + length m.tail.rest ≡ length text = omega (arith, c, e) in
    let (l, u) = end_of-bounds text m.tail.rest m.stop ms h.1 e' in
    with_section-Sectioned text file m ms _ (sections text file ms) b l u refl
      (sections-Sectioned text file m.tail.rest m.stop ms h.1 e')

-- The chunks of a document are, in order, those of its headings, one for each that has more than
-- blanks before the next heading or the end, and none else. A chunk begins with its heading and
-- ends at the next one or with the text, its title is the heading's, its text is the title and what
-- stands behind the heading, its citation names the file and the title; and no two of them overlap.
pub chunk_markdown-Sectioned :
    (text file : Text)
    → Sectioned text file (find_all section_pattern text) 0 (chunk_markdown text file)
unfolding chunk_markdown
chunk_markdown-Sectioned text file =
    let ms = find_all section_pattern text in
    let found = find_all-Spread section_pattern text in
    let h = sections-Sectioned text file text 0 ms found (omega arith) in
    record {
      each = h.each;
      apart = Apart-from 0 (end_of text ms) (sections text file ms) (omega arith) h.apart;
    }
