-- ===== src/Debate/Requests.antt =====
-- The requests that reach the debates, one after the other: those of the debate controller, the
-- agents' turns (`submitDebateTurn` of content.service.ts) and the sweeps. Reading a debate sweeps
-- it first, and reading the archive of an ended debate archives it.
pub mod Reads
pub mod Keeps
use agentschat.Prelude.{ℕ, Bool, not, ◌||◌, List, [], ◌∷◌, Option, is_some}
use agentschat.Prelude.Action.{pure, throw_if, in_transaction, ◌>>=◌, ◌>>◌}
use agentschat.Text.{Unknown}
use agentschat.Domain.{Subject, is_ended, is_archived}
use agentschat.Debate.Store.{
  Db, M, HttpException, find_session, debate_over, surface_blocked, content_rejected,
}
use agentschat.Debate.Presence.{process_event_ids, sync_agent_statuses}
use agentschat.Debate.Sweep.{sweep_debate_session}
use agentschat.Debate.Host.{start_debate, pause_debate, resume_debate, end_debate}
use agentschat.Debate.Submit.{TurnInput, Submitted, agent_subject, submit_transaction}
use agentschat.Debate.Create.{
  CreateDebateInput, create_human_hosted_debate, create_agent_hosted_debate,
}
use agentschat.Debate.Seating.{AssignReplacementInput, assign_replacement_seat}
use agentschat.Debate.Archive.{get_debate_archive}
use agentschat.Moderation.Actor.{assert_actor_allowed}

-- `assertDebateWritable` of moderation.service.ts
unfoldable pub assert_debate_writable : ℕ → M (Unit {0})
unfolding find_session
assert_debate_writable i = do
  d ← find_session i
  throw_if (is_ended d.status || is_archived d.status || is_some d.archived_at)
      (HttpException.forbidden debate_over)

unfoldable pub publish_turn : Submitted → M Submitted
publish_turn s = do process_event_ids (s.0 ∷ s.2.0); sync_agent_statuses s.2.1; pure s

-- The two verdicts are those of the agent's surface policy and of the content checks, which are
-- not modelled: either can only refuse the request, before the transaction.
unfoldable pub submit_debate_turn : ℕ → ℕ → TurnInput → Bool → Bool → M Submitted
submit_debate_turn now agent input surface_allowed content_accepted = do
  assert_actor_allowed now (agent_subject agent)
  throw_if (not surface_allowed) (HttpException.forbidden surface_blocked)
  sweep_debate_session now input.debate_session_id
  assert_debate_writable input.debate_session_id
  throw_if (not content_accepted) (HttpException.bad_request content_rejected)
  s ← in_transaction (submit_transaction now agent input)
  publish_turn s

pub data Request : Type 0 where
  create_as_human : ℕ → CreateDebateInput → Request
  create_as_agent : ℕ → CreateDebateInput → Request
  start end : Subject → ℕ → Request
  pause : Subject → ℕ → Unknown → Request
  resume : Subject → ℕ → Request
  replace : Subject → AssignReplacementInput → Request
  submit : ℕ → TurnInput → Bool → Bool → Request
  sweep : ℕ → Request
  read_archive : ℕ → Bool → Request

-- The store after a request at a time, also when the request was refused.
unfoldable pub handle : ℕ → Request → Db → Db
handle now (create_as_human human input) db = (create_human_hosted_debate now human input db).1
handle now (create_as_agent agent input) db = (create_agent_hosted_debate now agent input db).1
handle now (start actor i) db = (start_debate now actor i db).1
handle now (end actor i) db = (end_debate now actor i db).1
handle now (pause actor i reason) db = (pause_debate now actor i reason db).1
handle now (resume actor i) db = (resume_debate now actor i db).1
handle now (replace actor input) db = (assign_replacement_seat now actor input db).1
handle now (submit agent input surface content) db =
    (submit_debate_turn now agent input surface content db).1
handle now (sweep i) db = (sweep_debate_session now i db).1
handle now (read_archive i readable) db = (get_debate_archive now i readable db).1

-- Requests with the time of each, in the order in which they are served.
unfoldable pub serve : List (ℕ × Request) → Db → Db
serve [] db = db
serve ((now, r) ∷ rest) db = serve rest (handle now r db)
