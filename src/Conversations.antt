-- ===== src/Conversations.antt =====
-- backend/libs/adapters/conversations_memory.py: the conversations of the users and their messages.
-- Times are numbers; the time of a call and the ids that `uuid` makes are arguments.
pub mod Refines
pub mod Ensuring
mod Tests
use omnicare_genai_assessmen.Prelude.{
  ℕ, Bool, true, false, not, Option, none, some, List, [], ◌∷◌, ◌++◌, if◌then◌else◌, leb, take,
  keep,
}
use omnicare_genai_assessmen.Prelude.Sorting.{sorted}
use omnicare_genai_assessmen.Text.{Text, same}
use omnicare_genai_assessmen.Runs.Events.{ToolReport}

pub record Row : Type 0 where
  pub id : Text
  pub user_id : Text
  pub title : Option Text
  pub created_at : ℕ
  pub updated_at : ℕ

pub data Role : Type 0 where
  user assistant : Role

pub record Entry : Type 0 where
  pub id : Text
  pub role : Role
  pub content : Text
  pub sources : List Text
  pub tool_calls : List ToolReport
  pub channel : Text
  pub provider : Option Text
  pub model : Option Text
  pub latency_ms : Option ℕ
  pub trace_id : Option Text
  pub created_at : ℕ

pub record Store : Type 0 where
  pub conversations : List Row
  pub messages : List (Text × List Entry)

unfoldable pub row_of : Text → List Row → Option Row
unfolding same
row_of id [] = none
row_of id (r ∷ rs) = let rest = row_of id rs in if same r.id id then some r else rest

-- `_messages.get(id, [])`
unfoldable pub log_of : Text → List (Text × List Entry) → List Entry
unfolding same
log_of id [] = []
log_of id ((d, es) ∷ rest) = let later = log_of id rest in if same d id then es else later

-- The first conversation of a user.
unfoldable pub rolling : Text → List Row → Option Row
unfolding same
rolling who [] = none
rolling who (r ∷ rs) = let rest = rolling who rs in if same r.user_id who then some r else rest

-- Assignments to the two dictionaries: at the place of the key, or at the end.
pub put_row : Row → List Row → List Row
unfolding same
put_row r [] = r ∷ []
put_row r (q ∷ qs) = let rest = put_row r qs in if same q.id r.id then r ∷ qs else q ∷ rest

pub put_log : Text → List Entry → List (Text × List Entry) → List (Text × List Entry)
unfolding same
put_log id es [] = (id, es) ∷ []
put_log id es ((d, fs) ∷ rest) =
    let later = put_log id es rest in if same d id then (d, es) ∷ rest else (d, fs) ∷ later

new_row : Text → Text → ℕ → Row
new_row id who now = record {
  id = id;
  user_id = who;
  title = none;
  created_at = now;
  updated_at = now;
}

unfoldable pub opened : Text → Text → ℕ → Store → Text × Store
unfolding put_row put_log new_row
opened id who now st = (
  id,
  record {
    conversations = put_row (new_row id who now) st.conversations;
    messages = put_log id [] st.messages;
  },
)

unfoldable pub or_opened : Option Row → Text → Text → ℕ → Store → Text × Store
unfolding opened
or_opened none id who now st = opened id who now st
or_opened (some r) id who now st = (r.id, st)

-- `ensure`, with the id that a new conversation would have
unfoldable pub ensure : Text → Option Text → Text → ℕ → Store → Text × Store
unfolding or_opened row_of rolling
ensure who none fresh now st = or_opened (rolling who st.conversations) fresh who now st
ensure who (some []) fresh now st = opened fresh who now st
ensure who (some (c ∷ s)) fresh now st =
    or_opened (row_of (c ∷ s) st.conversations) (c ∷ s) who now st

-- `setdefault(id, []).append(e)`
pub append_log : Text → Entry → List (Text × List Entry) → List (Text × List Entry)
unfolding same
append_log id e [] = (id, e ∷ []) ∷ []
append_log id e ((d, es) ∷ rest) =
    let later = append_log id e rest in
    if same d id then (d, es ++ (e ∷ [])) ∷ rest else (d, es) ∷ later

pub touch : Text → ℕ → List Row → List Row
unfolding same
touch id now [] = []
touch id now (r ∷ rs) =
    let rest = touch id now rs in
    if same r.id id then record r { updated_at = now } ∷ rs else r ∷ rest

unfoldable pub add_message : Text → Entry → Store → Store
unfolding append_log touch
add_message id e st = record {
  conversations = touch id e.created_at st.conversations;
  messages = append_log id e st.messages;
}

-- The most recently updated first; of equal times the earlier row.
unfoldable pub list_for_user : Text → ℕ → Store → List Row
unfolding sorted same
list_for_user who limit st = take limit (
    sorted (λ (a b : Row). leb b.updated_at a.updated_at)
      (keep (λ r. same r.user_id who) st.conversations))

unfoldable pub messages_of : Text → ℕ → Store → List Entry
unfolding log_of
messages_of id limit st = take limit (log_of id st.messages)
