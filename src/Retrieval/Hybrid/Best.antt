-- ===== src/Retrieval/Hybrid/Best.antt =====
-- The order of what the fusion of two rankings yields, and that it leaves nothing out.
use omnicare_genai_assessmen.Prelude.{
  ℕ, suc, ◌≡◌, ◌∙◌, inl, inr, refl, sym, ap, Bool, true, false, ◌||◌, List, [], ◌∷◌, arith, any,
  take, Bool-cases, clash,
}
use omnicare_genai_assessmen.Prelude.Sorting.{
  sorted, insert_sorted, All-insert_sorted, All-sorted, IsChained, sorted-IsChained, any-sorted,
}
use mathlib.Core.Path.{subst}
use omnicare_genai_assessmen.Text.{Text, same}
use omnicare_genai_assessmen.Text.Laws.{same-eq, same_refl}
use omnicare_genai_assessmen.Retrieval.Chunker.{Chunk}
use omnicare_genai_assessmen.Retrieval.Hybrid.{
  Score, no_score, reciprocal, rrf_k, Scores, add_score, add_ranking, add_rankings,
  reciprocal_rank_fusion, at_least, text_leb, before, by_id, with_chunk, with_chunks, fuse,
}
use omnicare_genai_assessmen.Retrieval.Hybrid.Fused.{
  tallies, Keyed, IsKeyed, rankings-IsKeyed, Says, Says-self, Says-tallies,
}

text_leb-total : (s t : Text) → text_leb s t ≡ false → text_leb t s ≡ true
unfolding text_leb
text_leb-total [] t h = clash h
text_leb-total (c ∷ s) [] h = refl
text_leb-total (c ∷ s) (d ∷ t) h = elim (Bool-cases (text_leb s t)) [
  | inl y ↦ ground (arith, h, y)
  | inr n ↦ ground (arith, h, text_leb-total s t n)
]

before-total : (x y : Text × Score) → before x y ≡ false → before y x ≡ true
unfolding before
before-total (i, a) (j, b) h = elim (Bool-cases (at_least b a)) [
  | inr n ↦ clash (rw n at h)
  | inl y ↦ elim (Bool-cases (at_least a b)) [
    | inr n ↦ rw n refl
    | inl z ↦ rw z (rw y (text_leb-total i j (rw z at (rw y at h))))
  ]
]

-- Whether an id is among those of a ranking, or has a score.
abbrev pub in_ids : Text → List Text → Bool
in_ids id ds = any (λ d. same d id) ds

abbrev pub in_scores : Text → Scores → Bool
in_scores id scores = any (λ (q : Text × Score). same q.0 id) scores

or_twice : (a b : Bool) → (a || b) ≡ (a || (a || b))
or_twice true b = refl
or_twice false b = refl

or_swap : (a b c : Bool) → (a || (b || c)) ≡ (b || (a || c))
or_swap true true c = refl
or_swap true false c = refl
or_swap false b c = refl

or_assoc : (a b c : Bool) → (a || (b || c)) ≡ ((b || a) || c)
or_assoc true true c = refl
or_assoc true false c = refl
or_assoc false true c = refl
or_assoc false false c = refl

in_scores-add :
    (id d : Text) (s : Score) (scores : Scores)
    → in_scores id (add_score d s scores) ≡ (same d id || in_scores id scores)
unfolding add_score
in_scores-add id d s [] = refl
in_scores-add id d s ((f, t) ∷ rest) = elim (Bool-cases (same f d)) [
  | inl y ↦ rw y (
      subst
        (λ (x : Text).
          (same f id || in_scores id rest) ≡ (same x id || (same f id || in_scores id rest)))
        (same-eq f d y) (or_twice (same f id) (in_scores id rest)))
  | inr n ↦ rw n (
      ap (λ (b : Bool). same f id || b) (in_scores-add id d s rest)
      ∙ or_swap (same f id) (same d id) (in_scores id rest))
]

in_scores-ranking :
    (id : Text) (k rank : ℕ) (ds : List Text) (scores : Scores)
    → in_scores id (add_ranking k rank ds scores) ≡ (in_ids id ds || in_scores id scores)
unfolding add_ranking
in_scores-ranking id k rank [] scores = refl
in_scores-ranking id k rank (d ∷ ds) scores =
    in_scores-ranking id k (suc rank) ds (add_score d (reciprocal k rank) scores)
    ∙ ap (λ (b : Bool). in_ids id ds || b) (in_scores-add id d (reciprocal k rank) scores)
    ∙ or_assoc (in_ids id ds) (same d id) (in_scores id scores)

or_last : (a b : Bool) → (b || (a || false)) ≡ (a || b)
or_last true true = refl
or_last true false = refl
or_last false true = refl
or_last false false = refl

in_scores-fusion :
    (id : Text) (k : ℕ) (dense sparse : List Text)
    → in_scores id (reciprocal_rank_fusion k (dense ∷ sparse ∷ []))
      ≡ (in_ids id dense || in_ids id sparse)
unfolding reciprocal_rank_fusion add_rankings
in_scores-fusion id k dense sparse =
    in_scores-ranking id k 1 sparse (add_ranking k 1 dense [])
    ∙ ap (λ (b : Bool). in_ids id sparse || b) (in_scores-ranking id k 1 dense [])
    ∙ or_last (in_ids id dense) (in_ids id sparse)

same_sym : (s t : Text) → same s t ≡ false → same t s ≡ false
same_sym s t h = elim (Bool-cases (same t s)) [
  | inr n ↦ n
  | inl y ↦ clash (sym (subst (λ (x : Text). same x t ≡ true) (same-eq t s y) (same_refl t)) ∙ h)
]

insert_sorted-IsKeyed :
    (q : Text × Score) (scores : Scores)
    → Keyed q.0 scores
    → IsKeyed scores
    → IsKeyed (insert_sorted before q scores)
unfolding insert_sorted
insert_sorted-IsKeyed q [] k h = (tt, tt)
insert_sorted-IsKeyed q ((f, t) ∷ rest) k h = elim (Bool-cases (before q (f, t))) [
  | inl y ↦ rw y (k, h)
  | inr n ↦ rw n (
    All-insert_sorted before _ q rest (same_sym q.0 f k.0) h.0,
    insert_sorted-IsKeyed q rest k.1 h.1,
  )
]

sorted-IsKeyed : (scores : Scores) → IsKeyed scores → IsKeyed (sorted before scores)
unfolding sorted
sorted-IsKeyed [] h = tt
sorted-IsKeyed ((f, t) ∷ rest) h =
    insert_sorted-IsKeyed (f, t) (sorted before rest) (All-sorted before _ rest h.0)
      (sorted-IsKeyed rest h.1)

-- The chunks are those of the first ids of a ranking: of the ids of both rankings and of no others,
-- each once, with its sum of `1 / (60 + rank)`, the best first and of equal scores the smaller id.
pub record IsBest (dense sparse : List Text) (chunks : List Chunk) (top_k : ℕ)
    (found : List (Chunk × Score)) : Type 0 where
  pub ranking : Scores
  pub best_first : IsChained before ranking
  pub once : IsKeyed ranking
  pub listed : (id : Text) → in_scores id ranking ≡ (in_ids id dense || in_ids id sparse)
  pub scored : Says (λ id. tallies rrf_k id (dense ∷ sparse ∷ []) no_score) ranking
  pub taken : found ≡ with_chunks chunks (take top_k ranking)

pub fused-IsBest :
    (dense sparse : List Text) (chunks : List Chunk) (top_k : ℕ) (found : List (Chunk × Score))
    → let scores = reciprocal_rank_fusion rrf_k (dense ∷ sparse ∷ []) in
      found ≡ with_chunks chunks (take top_k (sorted before scores))
      → IsBest dense sparse chunks top_k found
fused-IsBest dense sparse chunks top_k found e =
    let rs = dense ∷ sparse ∷ [] in
    let scores = reciprocal_rank_fusion rrf_k rs in
    let keyed : IsKeyed scores = unfold reciprocal_rank_fusion in rankings-IsKeyed rrf_k rs [] tt in
    record {
      ranking = sorted before scores;
      best_first = sorted-IsChained before before-total scores;
      once = sorted-IsKeyed scores keyed;
      listed = λ id. any-sorted before _ scores ∙ in_scores-fusion id rrf_k dense sparse;
      scored = All-sorted before _ scores (Says-tallies rrf_k rs scores (Says-self scores keyed));
      taken = e;
    }

pub fuse-IsBest :
    (dense sparse : List Text) (chunks : List Chunk) (top_k : ℕ)
    → IsBest dense sparse chunks top_k (fuse dense sparse chunks top_k)
unfolding fuse
fuse-IsBest dense sparse chunks top_k = fused-IsBest dense sparse chunks top_k _ refl

with_chunks-nil : (scores : Scores) → with_chunks [] scores ≡ []
unfolding with_chunks with_chunk by_id
with_chunks-nil [] = refl
with_chunks-nil ((id, s) ∷ rest) = with_chunks-nil rest

-- In an index without chunks nothing is found, whatever the rankings.
pub nil-IsBest : (dense sparse : List Text) (top_k : ℕ) → IsBest dense sparse [] top_k []
nil-IsBest dense sparse top_k = fused-IsBest dense sparse [] top_k [] (sym (with_chunks-nil _))
