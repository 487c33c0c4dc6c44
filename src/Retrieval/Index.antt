-- ===== src/Retrieval/Index.antt =====
-- The search of the index (`HybridIndex.search` of backend/retrieval/app/index.py). The ids of the
-- dense search are an argument: the vectors are of the embedder, which is no code of the
-- repository.
use omnicare_genai_assessmen.Prelude.{
  ℕ, ◌*◌, ◌≤◌, List, [], ◌∷◌, if◌then◌else◌, ltb, length, arith, All,
}
use omnicare_genai_assessmen.Text.{Text}
use omnicare_genai_assessmen.Retrieval.Chunker.{Chunk}
use omnicare_genai_assessmen.Retrieval.Hybrid.{Score, fuse}
use omnicare_genai_assessmen.Retrieval.Hybrid.Fused.{IsFused, fuse-IsFused}
use omnicare_genai_assessmen.Retrieval.Hybrid.Best.{IsBest, fuse-IsBest, nil-IsBest}
use omnicare_genai_assessmen.Retrieval.Bm25.{rank}

-- The vector store's search: of the query, and of how many ids are asked for.
abbrev pub DenseSearch : Type 0
DenseSearch = Text → ℕ → List Text

-- How many ids each retriever is asked for.
abbrev pub depth : ℕ → ℕ
depth top_k = if ltb (top_k * 2) 5 then 5 else top_k * 2

-- An index without chunks is not ready, and finds nothing.
unfoldable pub search : (ℕ → ℕ → Score) → DenseSearch → List Chunk → Text → ℕ → List (Chunk × Score)
unfolding fuse
search idf dense [] query top_k = []
search idf dense (c ∷ cs) query top_k =
    fuse (dense query (depth top_k)) (rank idf (c ∷ cs) query (depth top_k)) (c ∷ cs) top_k

-- Whatever the vector store answers, a search returns the chunks of the first ids, as many as asked
-- for, of one ranking: of the ids of the dense and the lexical ranking and no others, each once,
-- with the sum of `1 / (60 + rank)` over its places in the two as its score, the best first, and of
-- equal scores the smaller id. It returns no more chunks than asked for, each a chunk of the index
-- with that score.
pub search-IsBest :
    (idf : ℕ → ℕ → Score) (dense : DenseSearch) (chunks : List Chunk) (query : Text) (top_k : ℕ)
    → let ds = dense query (depth top_k) in
      let ss = rank idf chunks query (depth top_k) in
      let found = search idf dense chunks query top_k in
      IsBest ds ss chunks top_k found × All (IsFused ds ss chunks) found × (length found ≤ top_k)
unfolding search
search-IsBest idf dense [] query top_k = (
  nil-IsBest (dense query (depth top_k)) (rank idf [] query (depth top_k)) top_k,
  tt,
  omega arith,
)
search-IsBest idf dense (c ∷ cs) query top_k =
    let ds = dense query (depth top_k) in
    let ss = rank idf (c ∷ cs) query (depth top_k) in
    let (each, few) = fuse-IsFused ds ss (c ∷ cs) top_k in
    (fuse-IsBest ds ss (c ∷ cs) top_k, each, few)
