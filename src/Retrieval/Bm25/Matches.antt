-- ===== src/Retrieval/Bm25/Matches.antt =====
-- What the lexical ranking lists.
use omnicare_genai_assessmen.Prelude.{
  ℕ, zero, suc, ◌≡◌, ◌≤◌, refl, Bool, true, false, not, List, [], ◌∷◌, ltb, ◌==◌, length, take, any,
  All, All-take, length-take, arith, Bool-cases, inl, inr, clash,
}
use omnicare_genai_assessmen.Prelude.Sorting.{sorted, All-sorted}
use omnicare_genai_assessmen.Text.{Text}
use omnicare_genai_assessmen.Retrieval.Chunker.{Chunk}
use omnicare_genai_assessmen.Retrieval.Terms.{analyze}
use omnicare_genai_assessmen.Retrieval.Hybrid.{Score, no_score, before}
use omnicare_genai_assessmen.Retrieval.Bm25.{
  Document, documents, frequency, with_term, score_terms, scored, ids_of, rank_documents, rank,
}

-- Some term is in the document.
abbrev pub shares : List Text → List Text → Bool
shares terms doc = any (λ t. not (frequency t doc == 0)) terms

-- The id is that of a chunk that shares a term with the query.
pub data HasMatch (terms : List Text) : List Chunk → Text → Type 0 where
  at_head :
      (c : Chunk) (cs : List Chunk)
      → shares terms (analyze c.text) ≡ true
      → HasMatch terms (c ∷ cs) c.chunk_id
  later :
      (c : Chunk) (cs : List Chunk) (id : Text) → HasMatch terms cs id → HasMatch terms (c ∷ cs) id

with_term-none :
    (idf : ℕ → ℕ → Score) (all : List Document) (n : ℕ) (term : Text) (d : Document) (s : Score)
    → not (n == 0) ≡ false
    → with_term idf all n term d s ≡ s
unfolding with_term
with_term-none idf all zero term d s h = refl
with_term-none idf all (suc n) term d s h = absurd (ground (arith, h))

score_terms-none :
    (idf : ℕ → ℕ → Score) (all : List Document) (terms : List Text) (d : Document) (s : Score)
    → shares terms d.terms ≡ false
    → score_terms idf all terms d s ≡ s
unfolding score_terms
score_terms-none idf all [] d s h = refl
score_terms-none idf all (t ∷ ts) d s h = elim (Bool-cases (not (frequency t d.terms == 0))) [
  | inl y ↦ clash (rw y at h)
  | inr f ↦
      rw (with_term-none idf all (frequency t d.terms) t d s f)
        (score_terms-none idf all ts d s (rw f at h))
]

HasMatch-later :
    (terms : List Text) (c : Chunk) (cs : List Chunk) (xs : List (Text × Score))
    → All (λ (p : Text × Score). HasMatch terms cs p.0) xs
    → All (λ (p : Text × Score). HasMatch terms (c ∷ cs) p.0) xs
HasMatch-later terms c cs [] h = tt
HasMatch-later terms c cs (x ∷ xs) h = (later c cs x.0 h.0, HasMatch-later terms c cs xs h.1)

scored-HasMatch :
    (idf : ℕ → ℕ → Score) (all : List Document) (terms : List Text) (cs : List Chunk)
    → All (λ (p : Text × Score). HasMatch terms cs p.0) (scored idf all terms (documents cs))
unfolding scored documents
scored-HasMatch idf all terms [] = tt
scored-HasMatch idf all terms (c ∷ cs) =
    let d : Document = record { chunk = c; terms = analyze c.text } in
    let rest = HasMatch-later terms c cs _ (scored-HasMatch idf all terms cs) in
    elim (Bool-cases (shares terms d.terms)) [
      | inl y ↦ elim (Bool-cases (ltb 0 (score_terms idf all terms d no_score).numerator)) [
        | inl p ↦ rw p (at_head c cs y, rest)
        | inr z ↦ rw z rest
      ]
      | inr f ↦ rw (score_terms-none idf all terms d no_score f) rest
    ]

ids_of-HasMatch :
    (terms : List Text) (cs : List Chunk) (xs : List (Text × Score))
    → All (λ (p : Text × Score). HasMatch terms cs p.0) xs
    → All (HasMatch terms cs) (ids_of xs) × (length (ids_of xs) ≤ length xs)
unfolding ids_of
ids_of-HasMatch terms cs [] h = (tt, omega arith)
ids_of-HasMatch terms cs ((id, s) ∷ xs) h =
    let (each, few) = ids_of-HasMatch terms cs xs h.1 in ((h.0, each), omega (arith, few))

-- The lexical ranking lists no more ids than asked for, and only those of chunks that have a term
-- of the query, whatever the weights of the terms are.
rank-HasMatch :
    (idf : ℕ → ℕ → Score) (chunks : List Chunk) (query : Text) (top_k : ℕ)
    → All (HasMatch (analyze query) chunks) (rank idf chunks query top_k)
      × (length (rank idf chunks query top_k) ≤ top_k)
unfolding rank rank_documents
rank-HasMatch idf chunks query top_k =
    let terms = analyze query in
    let found = scored idf (documents chunks) terms (documents chunks) in
    let (each, few) = ids_of-HasMatch terms chunks (take top_k (sorted before found)) (
      All-take _ top_k (sorted before found)
        (All-sorted before _ found (scored-HasMatch idf (documents chunks) terms chunks))) in
    (each, omega (arith, few, length-take top_k (sorted before found)))
