-- ===== src/Graph/History/Stale.antt =====
-- Which tool results the model is shown.
use omnicare_genai_assessmen.Prelude.{
  ℕ, suc, ◌+◌, ◌≤◌, ◌≡◌, ◌∙◌, refl, ap, true, false, Option, none, some, List, [], ◌∷◌, ◌++◌, map,
  arith, length, All, ltb, Bool-cases, inl, inr,
}
use omnicare_genai_assessmen.Text.{Text, same}
use omnicare_genai_assessmen.Text.Laws.{same-eq}
use omnicare_genai_assessmen.Graph.State.{Message, human, system, ai, tool_result}
use omnicare_genai_assessmen.Graph.History.{
  stale_tool_result, last_human, is_before, elided, trimmed, without_stale_tool_output,
}

abbrev pub IsReply : Message → Type 0
IsReply (human s) = ⊥
IsReply _ = Unit

-- A tool result without its content; any other message as it is.
abbrev pub hidden : Message → Message
hidden (tool_result id content) = tool_result id stale_tool_result
hidden m = m

elided-hidden : (m : Message) → elided m ≡ hidden m
unfolding elided
elided-hidden (human s) = refl
elided-hidden (system s) = refl
elided-hidden (ai s calls) = refl
elided-hidden (tool_result id content) = elim (Bool-cases (same content stale_tool_result)) [
  | inl old ↦ rw old (ap (λ t. tool_result id t) (same-eq _ _ old))
  | inr new ↦ rw new refl
]

last_human-replies :
    (i : ℕ) (best : Option ℕ) (ms : List Message) → All IsReply ms → last_human i best ms ≡ best
unfolding last_human
last_human-replies i best [] h = refl
last_human-replies i best (human s ∷ ms) h = absurd h.0
last_human-replies i best (system s ∷ ms) h = last_human-replies (suc i) best ms h.1
last_human-replies i best (ai s calls ∷ ms) h = last_human-replies (suc i) best ms h.1
last_human-replies i best (tool_result id content ∷ ms) h = last_human-replies (suc i) best ms h.1

last_human-append :
    (i : ℕ) (best : Option ℕ) (earlier : List Message) (q : Text) (turn : List Message)
    → All IsReply turn
    → last_human i best (earlier ++ (human q ∷ turn)) ≡ some (i + length earlier)
unfolding last_human
last_human-append i best [] q turn h =
    last_human-replies (suc i) (some i) turn h ∙ ap some (omega arith)
last_human-append i best (human s ∷ ms) q turn h =
    last_human-append (suc i) (some i) ms q turn h ∙ ap some (omega arith)
last_human-append i best (system s ∷ ms) q turn h =
    last_human-append (suc i) best ms q turn h ∙ ap some (omega arith)
last_human-append i best (ai s calls ∷ ms) q turn h =
    last_human-append (suc i) best ms q turn h ∙ ap some (omega arith)
last_human-append i best (tool_result id content ∷ ms) q turn h =
    last_human-append (suc i) best ms q turn h ∙ ap some (omega arith)

trimmed-late : (i n : ℕ) (ms : List Message) → n ≤ i → trimmed i (some n) ms ≡ ms
unfolding trimmed is_before
trimmed-late i n [] h = refl
trimmed-late i n (m ∷ ms) h =
    let late : ltb i n ≡ false = ground arith in
    rw late (ap (λ rest. m ∷ rest) (trimmed-late (suc i) n ms (omega arith)))

trimmed-append :
    (i n : ℕ) (earlier turn : List Message)
    → n ≡ i + length earlier
    → trimmed i (some n) (earlier ++ turn) ≡ map hidden earlier ++ turn
unfolding trimmed is_before
trimmed-append i n [] turn h = trimmed-late i n turn (omega arith)
trimmed-append i n (m ∷ ms) turn h =
    let early : ltb i n ≡ true = ground arith in
    rw (early, elided-hidden m)
      (ap (λ rest. hidden m ∷ rest) (trimmed-append (suc i) n ms turn (omega arith)))

-- When `q` is the policyholder's last message, the model is shown the conversation in which every
-- tool result before it has lost its content, and all else, with the whole of the turn, stands.
pub without_stale-hidden :
    (earlier : List Message) (q : Text) (turn : List Message)
    → All IsReply turn
    → without_stale_tool_output (earlier ++ (human q ∷ turn))
      ≡ map hidden earlier ++ (human q ∷ turn)
unfolding without_stale_tool_output
without_stale-hidden earlier q turn h =
    rw (last_human-append 0 none earlier q turn h)
      (trimmed-append 0 (0 + length earlier) earlier (human q ∷ turn) refl)
