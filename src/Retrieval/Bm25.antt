-- ===== src/Retrieval/Bm25.antt =====
-- The lexical ranking (`BM25` of backend/retrieval/app/hybrid.py), with its constants 1.5 and 0.75.
-- A weight is a fraction; the logarithm in it is an argument, of the number of documents and of how
-- many of them have the term.
pub mod Matches
use omnicare_genai_assessmen.Prelude.{
  ℕ, zero, suc, ◌+◌, ◌*◌, ◌≡◌, ◌≤◌, refl, Bool, true, false, ◌&&◌, ◌||◌, not, Option, none, some,
  List, [], ◌∷◌, if◌then◌else◌, ltb, ◌==◌, length, take, any, map, All, All-take, length-take,
  arith, Bool-cases, inl, inr, clash, sym, ◌∙◌,
}
use omnicare_genai_assessmen.Prelude.Sorting.{sorted, All-sorted}
use omnicare_genai_assessmen.Text.{Text, same}
use omnicare_genai_assessmen.Retrieval.Chunker.{Chunk}
use omnicare_genai_assessmen.Retrieval.Terms.{analyze}
use omnicare_genai_assessmen.Retrieval.Hybrid.{Score, no_score, plus_score, before}

-- `Counter(doc)[term]`
unfoldable pub frequency : Text → List Text → ℕ
unfolding same
frequency term [] = 0
frequency term (t ∷ ts) = let rest = frequency term ts in if same term t then suc rest else rest

-- A chunk with its terms.
pub record Document : Type 0 where
  pub chunk : Chunk
  pub terms : List Text

documents : List Chunk → List Document
documents [] = []
documents (c ∷ cs) = record { chunk = c; terms = analyze c.text } ∷ documents cs

total_length : List Document → ℕ
total_length [] = 0
total_length (d ∷ ds) = length d.terms + total_length ds

-- In how many documents a term is.
document_frequency : Text → List Document → ℕ
unfolding frequency
document_frequency term [] = 0
document_frequency term (d ∷ ds) =
    let rest = document_frequency term ds in if frequency term d.terms == 0 then rest else suc rest

abbrev or_count : ℕ → ℕ → ℕ
or_count zero n = n
or_count (suc k) n = suc k

times_score : Score → Score → Score
times_score a b = record {
  numerator = a.numerator * b.numerator;
  denominator = a.denominator * b.denominator;
}

-- `tf * (k1 + 1) / (tf + k1 * (1 - b + b * length / avg_len))`, for all lengths together and the
-- number of the documents
saturation : ℕ → ℕ → ℕ → ℕ → Score
saturation tf size total n = record {
  numerator = 20 * tf * total;
  denominator = 8 * tf * total + 3 * total + 9 * size * n;
}

module _ (idf : ℕ → ℕ → Score) (all : List Document) where
  with_term : ℕ → Text → Document → Score → Score
  unfolding times_score saturation total_length document_frequency
  with_term zero term d score = score
  with_term (suc tf) term d score =
      let n = length all in
      plus_score score (
        times_score (idf n (document_frequency term all))
          (saturation (suc tf) (length d.terms) (or_count (total_length all) n) n))

  score_terms : List Text → Document → Score → Score
  unfolding with_term frequency
  score_terms [] d score = score
  score_terms (t ∷ ts) d score = score_terms ts d (with_term (frequency t d.terms) t d score)

  scored : List Text → List Document → List (Text × Score)
  unfolding score_terms
  scored terms [] = []
  scored terms (d ∷ ds) =
      let rest = scored terms ds in
      let score = score_terms terms d no_score in
      if ltb 0 score.numerator then (d.chunk.chunk_id, score) ∷ rest else rest

ids_of : List (Text × Score) → List Text
ids_of [] = []
ids_of ((id, s) ∷ rest) = id ∷ ids_of rest

rank_documents : (ℕ → ℕ → Score) → List Document → List Text → ℕ → List Text
unfolding ids_of scored sorted
rank_documents idf ds terms top_k = ids_of (take top_k (sorted before (scored idf ds terms ds)))

-- `BM25(chunks).rank(query, top_k)`
unfoldable pub rank : (ℕ → ℕ → Score) → List Chunk → Text → ℕ → List Text
unfolding rank_documents documents
rank idf chunks query top_k = rank_documents idf (documents chunks) (analyze query) top_k
