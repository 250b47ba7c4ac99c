-- ===== src/Actions/Steps.antt =====
-- What happens to actions, one step after the other, by any number of processes. The steps of one
-- run of `processAcceptedAction` are a claim, the work and, where that throws, the note of it.
use agentschat.Prelude.{ℕ, ◌+◌, Bool, false, ◌&&◌, List, [], ◌∷◌, Option, none, ◌==◌, if◌then◌else◌}
use agentschat.Prelude.Table.{exists}
use agentschat.Prelude.Action.{is_ok}
use agentschat.Text.{Text}
use agentschat.Federation.Store.{FederatedAgent}
use agentschat.Actions.Store.{ActionsDb, Failure, Services, is_owned_by}
use agentschat.Actions.Submit.{PayloadInput, submit_action, finish_submission}
use agentschat.Actions.Process.{claim_action, perform_action, note_failure}

pub data ActionStep (J : Type 0) : Type 0 where
  submit : FederatedAgent → Option Text → Option Text → PayloadInput J → ActionStep J
  -- a submission whose look-up found nothing, and which others may have overtaken since
  finish_submit : ℕ → Text → Text → J → ActionStep J
  claim perform : ℕ → ℕ → ActionStep J
  fail : ℕ → ℕ → Failure → ActionStep J

module _ {J B : Type 0} (sv : Services J B) where
  unfoldable pub take_step : ℕ → ActionStep J → ActionsDb J B → ActionsDb J B
  take_step now (ActionStep.submit agent key type input) db =
      (submit_action sv now agent key type input db).1
  take_step now (ActionStep.finish_submit agent key type payload) db =
      (finish_submission now agent type key (sv.request_hash type payload) payload none db).1
  take_step now (ActionStep.claim owner i) db = (claim_action now owner i db).1
  take_step now (ActionStep.perform owner i) db = (perform_action sv now owner i db).1
  take_step now (ActionStep.fail owner i f) db = (note_failure now owner i f db).1

  unfoldable pub take_steps : List (ℕ × ActionStep J) → ActionsDb J B → ActionsDb J B
  take_steps [] db = db
  take_steps ((now, s) ∷ rest) db = take_steps rest (take_step now s db)

  -- The step does the work of an action, and its transaction is committed.
  unfoldable pub executes : ℕ → ℕ → ActionStep J → ActionsDb J B → Bool
  executes now i (ActionStep.perform owner j) db =
      j == i
      && exists (is_owned_by owner j) db.actions
      && is_ok (perform_action sv now owner j db).0
  executes now i _ db = false

  -- How often that happens.
  unfoldable pub executions : ℕ → List (ℕ × ActionStep J) → ActionsDb J B → ℕ
  executions i [] db = 0
  executions i ((now, s) ∷ rest) db =
      (if executes now i s db then 1 else 0) + executions i rest (take_step now s db)
