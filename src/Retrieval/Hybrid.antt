-- ===== src/Retrieval/Hybrid.antt =====
-- The fusion of the two rankings (backend/retrieval/app/hybrid.py). A score is a fraction.
pub mod Fused
pub mod Best
use omnicare_genai_assessmen.Prelude.{
  ℕ, zero, suc, ◌+◌, ◌*◌, Bool, true, false, ◌&&◌, ◌||◌, Option, none, some, List, [], ◌∷◌, ◌++◌,
  if◌then◌else◌, ltb, leb, ◌==◌, take,
}
use omnicare_genai_assessmen.Prelude.Sorting.{sorted}
use omnicare_genai_assessmen.Text.{Text, same}
use omnicare_genai_assessmen.Retrieval.Chunker.{Chunk}

pub record Score : Type 0 where
  pub numerator : ℕ
  pub denominator : ℕ

abbrev pub no_score : Score
no_score = record { numerator = 0; denominator = 1 }

abbrev pub plus_score : Score → Score → Score
plus_score a b = record {
  numerator = a.numerator * b.denominator + b.numerator * a.denominator;
  denominator = a.denominator * b.denominator;
}

abbrev pub at_least : Score → Score → Bool
at_least a b = leb (b.numerator * a.denominator) (a.numerator * b.denominator)

abbrev pub rrf_k : ℕ
rrf_k = 60

abbrev pub Scores : Type 0
Scores = List (Text × Score)

-- `scores.get(id, 0.0)`
unfoldable pub score_of : Text → Scores → Score
unfolding same
score_of id [] = no_score
score_of id ((d, s) ∷ rest) = let later = score_of id rest in if same d id then s else later

-- `scores[id] = scores.get(id, 0.0) + s`
unfoldable pub add_score : Text → Score → Scores → Scores
unfolding same
add_score id s [] = (id, plus_score no_score s) ∷ []
add_score id s ((d, t) ∷ rest) =
    let later = add_score id s rest in
    if same d id then (d, plus_score t s) ∷ rest else (d, t) ∷ later

-- What a place of a ranking is worth.
abbrev pub reciprocal : ℕ → ℕ → Score
reciprocal k rank = record { numerator = 1; denominator = k + rank }

pub add_ranking : ℕ → ℕ → List Text → Scores → Scores
unfolding add_score
add_ranking k rank [] scores = scores
add_ranking k rank (id ∷ ids) scores =
    add_ranking k (suc rank) ids (add_score id (reciprocal k rank) scores)

pub add_rankings : ℕ → List (List Text) → Scores → Scores
unfolding add_ranking
add_rankings k [] scores = scores
add_rankings k (r ∷ rs) scores = add_rankings k rs (add_ranking k 1 r scores)

unfoldable pub reciprocal_rank_fusion : ℕ → List (List Text) → Scores
unfolding add_rankings
reciprocal_rank_fusion k rankings = add_rankings k rankings []

-- Whether a text is not behind another, by code points.
unfoldable pub text_leb : Text → Text → Bool
text_leb [] t = true
text_leb (c ∷ s) [] = false
text_leb (c ∷ s) (d ∷ t) = ltb c d || ((c == d) && text_leb s t)

-- The order by `(-score, id)`.
unfoldable pub before : Text × Score → Text × Score → Bool
unfolding text_leb
before (i, a) (j, b) = if at_least b a then at_least a b && text_leb i j else true

-- `by_id`: of several chunks of one id the last counts.
or_earlier : Option Chunk → Option Chunk → Option Chunk
or_earlier none o = o
or_earlier (some c) o = some c

unfoldable pub by_id : List Chunk → Text → Option Chunk
unfolding or_earlier same
by_id [] id = none
by_id (c ∷ cs) id = or_earlier (by_id cs id) (if same c.chunk_id id then some c else none)

pub with_chunk : Option Chunk → Score → List (Chunk × Score) → List (Chunk × Score)
with_chunk none s rest = rest
with_chunk (some c) s rest = (c, s) ∷ rest

pub with_chunks : List Chunk → Scores → List (Chunk × Score)
unfolding with_chunk
with_chunks chunks [] = []
with_chunks chunks ((id, s) ∷ rest) = with_chunk (by_id chunks id) s (with_chunks chunks rest)

-- `fuse`: the chunks with their scores.
unfoldable pub fuse : List Text → List Text → List Chunk → ℕ → List (Chunk × Score)
unfolding with_chunks reciprocal_rank_fusion sorted
fuse dense sparse chunks top_k =
    with_chunks chunks
      (take top_k (sorted before (reciprocal_rank_fusion rrf_k (dense ∷ sparse ∷ []))))
