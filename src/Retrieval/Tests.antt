-- ===== src/Retrieval/Tests.antt =====
-- Runs of the search, and the theorems at them.
use omnicare_genai_assessmen.Prelude.{ℕ, take, ◌+◌, ◌*◌, ◌≡◌, ◌≤◌, refl, List, [], ◌∷◌, All, length}
use mathlib.Core.List.{flat_map}
use omnicare_genai_assessmen.Prelude.Sorting.{sorted, insert_sorted}
use omnicare_genai_assessmen.Text.{
  Text, codes, same, lower, to_lower, starts_with, strip, left_strip, right_strip,
}
use omnicare_genai_assessmen.Text.Regex.{find_all, group_of, substitute, split_text}
use omnicare_genai_assessmen.Graph.Tools.{format_citation}
use omnicare_genai_assessmen.Retrieval.Chunker.{section_pattern, Chunk, chunk_markdown, slugify}
use omnicare_genai_assessmen.Retrieval.Chunker.Apart.{Sectioned, chunk_markdown-Sectioned}
use omnicare_genai_assessmen.Retrieval.Terms.{analyze, tokenize, stem, stopwords, ends_with}
use omnicare_genai_assessmen.Retrieval.Hybrid.{
  Score, fuse, add_score, reciprocal_rank_fusion, before, by_id, text_leb,
}
use omnicare_genai_assessmen.Retrieval.Hybrid.Fused.{IsFused}
use omnicare_genai_assessmen.Retrieval.Hybrid.Best.{IsBest}
use omnicare_genai_assessmen.Retrieval.Index.{DenseSearch, depth, search, search-IsBest}
use omnicare_genai_assessmen.Retrieval.Bm25.{rank}

abbrev document : Text
document =
    codes
      "# Policy\n\n## Section 1: Water\n\nBurst pipes.\n\n## Empty\n\n## Section 2: Goods\nTheft."

abbrev water : Chunk
water = record {
  chunk_id = codes "p.md::section-1";
  text = codes "Section 1: Water\n\nBurst pipes.";
  source_file = codes "p.md";
  section_id = codes "section-1";
  section_title = codes "Section 1: Water";
  char_start = 10;
  char_end = 45;
  citation = codes "p.md § Section 1: Water";
}

abbrev goods : Chunk
goods = record {
  chunk_id = codes "p.md::section-2";
  text = codes "Section 2: Goods\n\nTheft.";
  source_file = codes "p.md";
  section_id = codes "section-2";
  section_title = codes "Section 2: Goods";
  char_start = 55;
  char_end = 81;
  citation = codes "p.md § Section 2: Goods";
}

chunked : chunk_markdown document (codes "p.md") ≡ water ∷ goods ∷ []
unfolding chunk_markdown slugify format_citation find_all flat_map group_of substitute strip
    left_strip right_strip lower to_lower
chunked = refl

chunk_markdown-Sectioned_example :
    Sectioned document
      (codes "p.md")
      (find_all section_pattern document)
      0
      (chunk_markdown document (codes "p.md"))
chunk_markdown-Sectioned_example = chunk_markdown-Sectioned document (codes "p.md")

analyzed :
    analyze (codes "What caused the damages of $25,000?")
    ≡ codes "caus" ∷ codes "damag" ∷ codes "$25,000" ∷ []
unfolding analyze tokenize stem stopwords ends_with split_text find_all flat_map lower to_lower same
    starts_with
analyzed = refl

abbrev ids : List Text
ids = codes "p.md::section-2" ∷ codes "p.md::section-1" ∷ []

abbrev even : ℕ → ℕ → Score
even n df = record { numerator = 1; denominator = 2 }

abbrev dense : DenseSearch
dense query n = take n ids

search-IsBest_example :
    let cs = water ∷ goods ∷ [] in
    let ds = dense (codes "pipes") (depth 1) in
    let ss = rank even cs (codes "pipes") (depth 1) in
    let found = search even dense cs (codes "pipes") 1 in
    IsBest ds ss cs 1 found × All (IsFused ds ss cs) found × (length found ≤ 1)
search-IsBest_example = search-IsBest even dense (water ∷ goods ∷ []) (codes "pipes") 1

fused :
    fuse ids (codes "p.md::section-1" ∷ []) (water ∷ goods ∷ []) 1
    ≡ (water, record { numerator = 61 + 62; denominator = 62 * 61 }) ∷ []
unfolding fuse reciprocal_rank_fusion add_score sorted insert_sorted before by_id same text_leb
fused = refl
