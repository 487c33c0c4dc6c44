-- ===== src/Conversations/Tests.antt =====
-- A store of two conversations, its operations, and the theorems at it.
use omnicare_genai_assessmen.Prelude.{◌≡◌, refl, ℕ, none, some, [], ◌∷◌}
use omnicare_genai_assessmen.Text.{codes, same, Text}
use omnicare_genai_assessmen.Conversations.{
  Row, user, assistant, Role, Entry, Store, log_of, rolling, or_opened, ensure, append_log, touch,
  add_message, list_for_user, messages_of,
}
use omnicare_genai_assessmen.Conversations.Refines.{view, say_view, Agrees, add_message-refines}
use omnicare_genai_assessmen.Conversations.Ensuring.{Ensures, ensure-refines}
use omnicare_genai_assessmen.Prelude.Sorting.{sorted, insert_sorted}

abbrev row : Text → Text → ℕ → Row
row id who now = record { id = id; user_id = who; title = none; created_at = 1; updated_at = now }

abbrev entry : Text → Role → Text → ℕ → Entry
entry id role content now = record {
  id = id;
  role = role;
  content = content;
  sources = [];
  tool_calls = [];
  channel = codes "text";
  provider = none;
  model = none;
  latency_ms = none;
  trace_id = none;
  created_at = now;
}

abbrev hello : Entry
hello = entry (codes "m1") user (codes "hello") 3

abbrev answer : Entry
answer = entry (codes "m2") assistant (codes "hi") 9

abbrev store : Store
store = record {
  conversations = row (codes "a") (codes "U1") 3 ∷ row (codes "b") (codes "U1") 5 ∷ [];
  messages = (codes "a", hello ∷ []) ∷ (codes "b", []) ∷ [];
}

behind : messages_of (codes "a") 200 (add_message (codes "a") answer store) ≡ hello ∷ answer ∷ []
unfolding messages_of add_message append_log touch log_of same
behind = refl

latest_first :
    list_for_user (codes "U1") 1 (add_message (codes "a") answer store)
    ≡ row (codes "a") (codes "U1") 9 ∷ []
unfolding list_for_user add_message append_log touch same sorted insert_sorted
latest_first = refl

rolling_first : ensure (codes "U1") none (codes "c") 7 store ≡ (codes "a", store)
unfolding ensure or_opened rolling same
rolling_first = refl

add_message-refines_example :
    Agrees (view (add_message (codes "a") answer store)) (say_view (codes "a") answer (view store))
add_message-refines_example = add_message-refines (codes "a") answer store

ensure-refines_example :
    Ensures
      (codes "U2")
      (some (codes "d"))
      (codes "c")
      store
      (ensure (codes "U2") (some (codes "d")) (codes "c") 7 store).0
      (ensure (codes "U2") (some (codes "d")) (codes "c") 7 store).1
unfolding same
ensure-refines_example =
    ensure-refines (codes "U2") (some (codes "d")) (codes "c") 7 store ((refl, tt), (tt, tt))
