-- ===== src/Text/Laws.antt =====
-- The comparison of texts decides their equality.
use omnicare_genai_assessmen.Prelude.{
  ◌≡◌, ◌∙◌, ◌↔◌, sym, refl, true, false, clash, List, [], ◌∷◌, arith, any, OneOf, inl, inr,
  Bool-cases,
}
use mathlib.Core.Path.{subst}
use omnicare_genai_assessmen.Text.{Text, same}

pub same-eq : (s t : Text) → same s t ≡ true → s ≡ t
unfolding same
same-eq [] [] h = refl
same-eq [] (d ∷ t) h = cc
same-eq (c ∷ s) [] h = cc
same-eq (c ∷ s) (d ∷ t) h = ground (arith, same-eq s t (ground arith))

pub same_refl : (s : Text) → same s s ≡ true
unfolding same
same_refl [] = refl
same_refl (c ∷ s) = ground (arith, same_refl s)

pub same_iff : (s t : Text) → (same s t ≡ true) ↔ (s ≡ t)
same_iff s t = (same-eq s t, λ e. subst (λ (u : Text). same s u ≡ true) e (same_refl s))

-- What is found in a list of texts is one of them.
pub any-OneOf : (s : Text) (ts : List Text) → any (same s) ts ≡ true → OneOf s ts
any-OneOf s [] h = cc
any-OneOf s (t ∷ ts) h = elim (Bool-cases (same s t)) [
  | inl y ↦ inl (same-eq s t y)
  | inr n ↦ inr (any-OneOf s ts (rw n at h))
]

-- A text that is another than `f` is another than what equals `f`.
pub same_other : (f d id : Text) → same f id ≡ true → same f d ≡ false → same d id ≡ false
same_other f d id m n = elim (Bool-cases (same d id)) [
  | inr o ↦ o
  | inl y ↦
      let e : f ≡ d = same-eq f id m ∙ sym (same-eq d id y) in
      clash (sym (subst (λ (x : Text). same f x ≡ true) e (same_refl f)) ∙ n)
]

pub OneOf-any : (s : Text) (ts : List Text) → OneOf s ts → any (same s) ts ≡ true
OneOf-any s [] h = absurd h
OneOf-any s (t ∷ ts) h = elim (Bool-cases (same s t)) [
  | inl y ↦ rw y refl
  | inr n ↦ rw n (elim h [
    | inl e ↦ clash (sym (subst (λ (x : Text). same s x ≡ true) e (same_refl s)) ∙ n)
    | inr later ↦ OneOf-any s ts later
  ])
]
