-- ===== src/Runs/Worker/Loop.antt =====
-- The jobs that one round of `AgentWorker.run_forever` reads (backend/agent/app/worker.py), with
-- the entries that wait for an acknowledgement (`ack` and `dead_letter` of
-- backend/libs/adapters/queue_redis.py).
pub mod Settled
use omnicare_genai_assessmen.Prelude.{
  none, some, ℕ, ◌+◌, Bool, not, Option, List, [], ◌∷◌, ◌++◌, if◌then◌else◌, keep,
}
use mathlib.Core.Option
use omnicare_genai_assessmen.Text.{Text, same}
use omnicare_genai_assessmen.Runs.Events.{RunEvent}
use omnicare_genai_assessmen.Runs.Worker.{Outcome, Exit, returned, raised, handle}

-- An entry of the stream of jobs, when it is handled, and what the graph does with it. Calls of the
-- queue may raise: where one of the handler's does, what it has published by the time it gives up;
-- and whether the acknowledgement raises, and the sending of a dead letter.
pub record Job : Type 0 where
  pub entry_id : Text
  pub run_id : Text
  pub deadline_at : Option ℕ
  pub now : ℕ
  pub outcome : Outcome
  pub broken : Option (List RunEvent)
  pub ack_raises : Bool
  pub letter_raises : Bool

-- The events that were published, the entries that are delivered and not acknowledged, and the dead
-- letters.
pub record Jobs : Type 0 where
  pub published : List RunEvent
  pub unacknowledged : List Text
  pub dead : List Text

unfoldable pub ack : Text → Jobs → Jobs
ack id s = record s { unacknowledged = keep (λ e. not (same e id)) s.unacknowledged }

unfoldable pub emitted : Option (List RunEvent) → List RunEvent × Exit → List RunEvent × Exit
emitted none p = p
emitted (some es) p = (es, raised)

-- What is left of the dead letters when their stream is cut to about a thousand is up to the
-- server.
module _ (trim : List Text → List Text) where
  unfoldable pub dead_letter : Job → Jobs → Option Jobs
  unfolding ack
  dead_letter j s =
      if j.letter_raises
      then none
      else some (ack j.entry_id (record s { dead = trim (s.dead ++ (j.entry_id ∷ [])) }))

  unfoldable pub after_job : Job → List RunEvent × Exit → Jobs → Option Jobs
  unfolding ack dead_letter
  after_job j (es, returned) s =
      let t : Jobs = record s { published = s.published ++ es } in
      if j.ack_raises then dead_letter j t else some (ack j.entry_id t)
  after_job j (es, raised) s = dead_letter j (record s { published = s.published ++ es })

  unfoldable pub handle_job : Job → Jobs → Option Jobs
  unfolding after_job emitted handle
  handle_job j s = after_job j (emitted j.broken (handle j.run_id j.deadline_at j.now j.outcome)) s

  -- The jobs of a round in turn; `none` where the loop ends by raising.
  unfoldable pub handle_jobs : List Job → Jobs → Option Jobs
  unfolding handle_job Option.bind
  handle_jobs [] s = some s
  handle_jobs (j ∷ js) s = Option.bind (handle_job j s) (handle_jobs js)
