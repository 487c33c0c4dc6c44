-- ===== src/Graph/Answer.antt =====
-- The answer that the tail of the graph edits, and its rewriting in place (the `final` of the nodes
-- in backend/agent/app/graph/nodes.py; `add_messages` replaces the message that has the same id).
use omnicare_genai_assessmen.Prelude.{◌≡◌, refl, Option, none, some, List, [], ◌∷◌, ◌++◌, arith}
use omnicare_genai_assessmen.Text.{Text}
use omnicare_genai_assessmen.Graph.State.{Message, ai}

or_else : Option Text → Option Text → Option Text
or_else none o = o
or_else (some t) o = some t

-- What the message says if it is the model's and calls no tool.
prose_of : Message → Option Text
prose_of (ai t []) = some t
prose_of _ = none

-- `next((m for m in reversed(messages) if m.type == "ai" and not m.tool_calls), None)`
unfoldable pub final_answer : List Message → Option Text
unfolding or_else prose_of
final_answer [] = none
final_answer (m ∷ ms) = or_else (final_answer ms) (prose_of m)

rewrite_here : Option Text → Message → Text → List Message → List Message → List Message
rewrite_here none m t ms rest = m ∷ rest
rewrite_here (some s) m t ms rest = ai t [] ∷ ms

rewrite_in : Option Text → Message → Text → List Message → List Message → List Message
unfolding rewrite_here prose_of
rewrite_in (some s) m t ms rest = m ∷ rest
rewrite_in none m t ms rest = rewrite_here (prose_of m) m t ms rest

-- That message with another text.
unfoldable pub republish : Text → List Message → List Message
unfolding rewrite_in final_answer
republish t [] = []
republish t (m ∷ ms) = rewrite_in (final_answer ms) m t ms (republish t ms)

rewrite_in-final :
    (o q : Option Text) (m : Message) (s t : Text) (ms rest : List Message)
    → o ≡ final_answer ms
    → q ≡ prose_of m
    → or_else o q ≡ some s
    → ((u : Text) → o ≡ some u → final_answer rest ≡ some t)
    → final_answer (rewrite_in o m t ms rest) ≡ some t
unfolding rewrite_in or_else final_answer rewrite_here prose_of
rewrite_in-final (some u) q m s t ms rest e p h k = rw (k u refl) refl
rewrite_in-final none none m s t ms rest e p h k = absurd (ground (arith, h))
rewrite_in-final none (some u) m s t ms rest e p h k = rw (← p) (rw (← e) refl)

-- After the rewriting, the answer is the new text.
pub final_answer-republish :
    (s t : Text) (ms : List Message)
    → final_answer ms ≡ some s
    → final_answer (republish t ms) ≡ some t
unfolding republish final_answer
final_answer-republish s t [] h = absurd (ground (arith, h))
final_answer-republish s t (m ∷ ms) h =
    rewrite_in-final (final_answer ms) (prose_of m) m s t ms (republish t ms) refl refl h
      (λ u e. final_answer-republish u t ms e)

pub final_answer-append :
    (ms : List Message) (t : Text) → final_answer (ms ++ (ai t [] ∷ [])) ≡ some t
unfolding final_answer or_else prose_of
final_answer-append [] t = refl
final_answer-append (m ∷ ms) t = rw (final_answer-append ms t) refl
