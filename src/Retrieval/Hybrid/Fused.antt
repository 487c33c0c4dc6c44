-- ===== src/Retrieval/Hybrid/Fused.antt =====
-- What the fusion of two rankings yields.
use omnicare_genai_assessmen.Prelude.{
  ℕ, suc, ◌≡◌, ◌≤◌, ◌∙◌, inl, inr, refl, sym, ap, false, some, List, [], ◌∷◌, arith, if◌then◌else◌,
  All, take, length, length-take, All-take, Bool-cases, Option-cases,
}
use omnicare_genai_assessmen.Prelude.Sorting.{sorted, All-sorted}
use mathlib.Core.Path.{subst}
use omnicare_genai_assessmen.Text.{Text, same}
use omnicare_genai_assessmen.Text.Laws.{same_other, same-eq, same_refl}
use omnicare_genai_assessmen.Retrieval.Chunker.{Chunk}
use omnicare_genai_assessmen.Retrieval.Hybrid.{
  Score, no_score, plus_score, reciprocal, rrf_k, Scores, score_of, add_score, add_ranking,
  add_rankings, reciprocal_rank_fusion, before, by_id, with_chunk, with_chunks, fuse,
}

-- The sum of what the places of one id in a ranking are worth, onto what it had.
abbrev pub tally : ℕ → ℕ → Text → List Text → Score → Score
tally k rank id [] s = s
tally k rank id (d ∷ ds) s =
    tally k (suc rank) id ds (if same d id then plus_score s (reciprocal k rank) else s)

abbrev pub Keyed : Text → Scores → Type 0
Keyed d scores = All (λ (q : Text × Score). same d q.0 ≡ false) scores

-- Each id has one score.
abbrev pub IsKeyed : Scores → Type 0
IsKeyed [] = Unit
IsKeyed ((d, s) ∷ rest) = Keyed d rest × IsKeyed rest

Keyed-add :
    (d id : Text) (s : Score) (scores : Scores)
    → same d id ≡ false
    → Keyed d scores
    → Keyed d (add_score id s scores)
unfolding add_score
Keyed-add d id s [] e h = (e, tt)
Keyed-add d id s ((f, t) ∷ rest) e h = elim (Bool-cases (same f id)) [
  | inl y ↦ rw y (h.0, h.1)
  | inr n ↦ rw n (h.0, Keyed-add d id s rest e h.1)
]

add_score-IsKeyed :
    (id : Text) (s : Score) (scores : Scores) → IsKeyed scores → IsKeyed (add_score id s scores)
unfolding add_score
add_score-IsKeyed id s [] h = (tt, tt)
add_score-IsKeyed id s ((f, t) ∷ rest) h = elim (Bool-cases (same f id)) [
  | inl y ↦ rw y (h.0, h.1)
  | inr n ↦ rw n (Keyed-add f id s rest n h.0, add_score-IsKeyed id s rest h.1)
]

score_of-add_head :
    (id d : Text) (s t : Score) (rest : Scores)
    → score_of id (add_score d s ((d, t) ∷ rest)) ≡ (
        if same d id
        then plus_score (score_of id ((d, t) ∷ rest)) s
        else score_of id ((d, t) ∷ rest))
unfolding score_of add_score
score_of-add_head id d s t rest =
    rw (same_refl d) (elim (Bool-cases (same d id)) [ inl m ↦ rw m refl | inr o ↦ rw o refl ])

score_of-add :
    (id d : Text) (s : Score) (scores : Scores)
    → score_of id (add_score d s scores)
      ≡ (if same d id then plus_score (score_of id scores) s else score_of id scores)
unfolding score_of add_score
score_of-add id d s [] = refl
score_of-add id d s ((f, t) ∷ rest) = elim (Bool-cases (same f d)) [
  | inl y ↦
      subst
        (λ (x : Text). score_of id (add_score d s ((x, t) ∷ rest)) ≡ (
          if same d id
          then plus_score (score_of id ((x, t) ∷ rest)) s
          else score_of id ((x, t) ∷ rest)))
        (sym (same-eq f d y)) (score_of-add_head id d s t rest)
  | inr n ↦ rw n (elim (Bool-cases (same f id)) [
    | inl m ↦ rw m (rw (same_other f d id m n) refl)
    | inr o ↦ rw o (score_of-add id d s rest)
  ])
]

score_of-ranking :
    (k rank : ℕ) (id : Text) (ds : List Text) (scores : Scores)
    → score_of id (add_ranking k rank ds scores) ≡ tally k rank id ds (score_of id scores)
unfolding add_ranking
score_of-ranking k rank id [] scores = refl
score_of-ranking k rank id (d ∷ ds) scores =
    score_of-ranking k (suc rank) id ds (add_score d (reciprocal k rank) scores)
    ∙ ap (tally k (suc rank) id ds) (score_of-add id d (reciprocal k rank) scores)

-- The sum over several rankings.
abbrev pub tallies : ℕ → Text → List (List Text) → Score → Score
tallies k id [] s = s
tallies k id (r ∷ rs) s = tallies k id rs (tally k 1 id r s)

score_of-rankings :
    (k : ℕ) (id : Text) (rs : List (List Text)) (scores : Scores)
    → score_of id (add_rankings k rs scores) ≡ tallies k id rs (score_of id scores)
unfolding add_rankings
score_of-rankings k id [] scores = refl
score_of-rankings k id (r ∷ rs) scores =
    score_of-rankings k id rs (add_ranking k 1 r scores)
    ∙ ap (tallies k id rs) (score_of-ranking k 1 id r scores)

-- The score of an id is the sum of `1 / (k + rank)` over its places in the rankings, whatever the
-- rankings are, and none for an id that no ranking lists.
pub fusion-tallies :
    (k : ℕ) (rankings : List (List Text)) (id : Text)
    → score_of id (reciprocal_rank_fusion k rankings) ≡ tallies k id rankings no_score
unfolding reciprocal_rank_fusion score_of
fusion-tallies k rankings id = score_of-rankings k id rankings []

ranking-IsKeyed :
    (k rank : ℕ) (ds : List Text) (scores : Scores)
    → IsKeyed scores
    → IsKeyed (add_ranking k rank ds scores)
unfolding add_ranking
ranking-IsKeyed k rank [] scores h = h
ranking-IsKeyed k rank (d ∷ ds) scores h =
    ranking-IsKeyed k (suc rank) ds _ (add_score-IsKeyed d (reciprocal k rank) scores h)

pub rankings-IsKeyed :
    (k : ℕ) (rs : List (List Text)) (scores : Scores)
    → IsKeyed scores
    → IsKeyed (add_rankings k rs scores)
unfolding add_rankings
rankings-IsKeyed k [] scores h = h
rankings-IsKeyed k (r ∷ rs) scores h = rankings-IsKeyed k rs _ (ranking-IsKeyed k 1 r scores h)

-- Each entry of a list is what the function says of its id.
abbrev pub Says : (Text → Score) → Scores → Type 0
Says f scores = All (λ (q : Text × Score). f q.0 ≡ q.1) scores

Says-later :
    (d : Text) (s : Score) (rest entries : Scores)
    → Keyed d entries
    → Says (λ id. score_of id rest) entries
    → Says (λ id. score_of id ((d, s) ∷ rest)) entries
unfolding score_of
Says-later d s rest [] k h = tt
Says-later d s rest ((f, t) ∷ es) k h = (rw k.0 h.0, Says-later d s rest es k.1 h.1)

pub Says-self : (scores : Scores) → IsKeyed scores → Says (λ id. score_of id scores) scores
unfolding score_of
Says-self [] h = tt
Says-self ((d, s) ∷ rest) h =
    (rw (same_refl d) refl, Says-later d s rest rest h.0 (Says-self rest h.1))

-- A chunk of the index, with the sum of its places in the two rankings.
pub record IsFused (dense sparse : List Text) (chunks : List Chunk) (p : Chunk × Score)
    : Type 0 where
  pub id : Text
  pub found : by_id chunks id ≡ some p.0
  pub scored : p.1 ≡ tallies rrf_k id (dense ∷ sparse ∷ []) no_score

chunks-IsFused :
    (dense sparse : List Text) (chunks : List Chunk) (scores : Scores)
    → Says (λ id. tallies rrf_k id (dense ∷ sparse ∷ []) no_score) scores
    → All (IsFused dense sparse chunks) (with_chunks chunks scores)
      × (length (with_chunks chunks scores) ≤ length scores)
unfolding with_chunks with_chunk
chunks-IsFused dense sparse chunks [] h = (tt, omega arith)
chunks-IsFused dense sparse chunks ((id, s) ∷ rest) h =
    let (each, few) = chunks-IsFused dense sparse chunks rest h.1 in
    elim (Option-cases (by_id chunks id)) [
      | inl e ↦ rw e (each, omega (arith, few))
      | inr (c, e) ↦
          rw e ((record { id = id; found = e; scored = sym h.0 }, each), omega (arith, few))
    ]

pub Says-tallies :
    (k : ℕ) (rs : List (List Text)) (scores : Scores)
    → Says (λ id. score_of id (reciprocal_rank_fusion k rs)) scores
    → Says (λ id. tallies k id rs no_score) scores
Says-tallies k rs [] h = tt
Says-tallies k rs ((d, s) ∷ rest) h =
    (sym (fusion-tallies k rs d) ∙ h.0, Says-tallies k rs rest h.1)

-- The search returns no more chunks than asked for; each is a chunk of the index, with the sum of
-- `1 / (60 + rank)` over its places in the dense and the lexical ranking as its score.
pub fuse-IsFused :
    (dense sparse : List Text) (chunks : List Chunk) (top_k : ℕ)
    → All (IsFused dense sparse chunks) (fuse dense sparse chunks top_k)
      × (length (fuse dense sparse chunks top_k) ≤ top_k)
unfolding fuse
fuse-IsFused dense sparse chunks top_k =
    let rs = dense ∷ sparse ∷ [] in
    let scores = reciprocal_rank_fusion rrf_k rs in
    let says =
      Says-tallies rrf_k rs scores
        (Says-self scores (unfold reciprocal_rank_fusion in rankings-IsKeyed rrf_k rs [] tt)) in
    let best = take top_k (sorted before scores) in
    let (each, few) =
      chunks-IsFused dense sparse chunks best
        (All-take _ top_k (sorted before scores) (All-sorted before _ scores says)) in
    (each, omega (arith, few, length-take top_k (sorted before scores)))
