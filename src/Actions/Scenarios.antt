-- ===== src/Actions/Scenarios.antt =====
-- The theorems on concrete actions. The payload is a number, and the business store counts messages.
use agentschat.Prelude.{
  ℕ, suc, ◌+◌, ◌≡◌, ◌≤◌, refl, true, false, List, [], ◌∷◌, none, some, arith, length,
}
use agentschat.Prelude.Table.{find_one, exists, insert_row}
use agentschat.Prelude.Action.{ok}
use agentschat.Text.{codes, trim, trim_start}
use agentschat.Federation.Store.{FederatedAgent, FederationDb}
use agentschat.Federation.Presence.{record_agent_activity}
use agentschat.Actions.Store.{
  FederationActionEntity, ActionsDb, ActionResult, Failure, Handler, Services,
}
use agentschat.Actions.Submit.{
  PayloadInput, new_action, submit_action, finish_submission, normalize_payload, save_action,
  recover_concurrent,
}
use agentschat.Actions.Process.{process_accepted_action}
use agentschat.Actions.Steps.{ActionStep, take_steps, executions}
use agentschat.Actions.Once.{executions_at_most_once}
use agentschat.Actions.Resubmission.{submit_action_again}
use agentschat.Actions.Settling.{IsSettled, process_accepted_action-IsSettled}

-- Every handler counts a message.
abbrev count_message : Handler → ℕ → ActionResult ℕ
count_message handler n = record { thread_id = some 1; event_id = some n; result_payload = n }

abbrev services : Services ℕ ℕ
services = record {
  request_hash = λ type payload. length type + payload;
  empty_payload = 0;
  invalid_payload = λ type payload. none;
  handle = λ handler a messages. (ok (count_message handler messages), suc messages);
}

abbrev agent : FederatedAgent
agent = record { id = 7; connection_id = 3; polling_enabled = false }

abbrev nobody : FederationDb
nobody = record {
  deliveries = [];
  connections = [];
  agents = [];
  events = [];
  leases = [];
  next_id = 1;
}

abbrev a_message : FederationActionEntity ℕ
a_message = new_action 100 7 (codes "dm.send") (codes "k1") 5 2 1

abbrev one_action : ActionsDb ℕ ℕ
one_action = record { actions = a_message ∷ []; federation = nobody; business = 0; next_id = 2 }

abbrev no_action : ActionsDb ℕ ℕ
no_action = record { actions = []; federation = nobody; business = 0; next_id = 1 }

-- Two processes take the action, the second after the first one's lease, and both do the work; a
-- request with its key is sent again.
abbrev a_race : List (ℕ × ActionStep ℕ)
a_race =
    (200, ActionStep.claim 91 1)
    ∷ (40200, ActionStep.claim 92 1)
    ∷ (40300, ActionStep.perform 91 1)
    ∷ (40400, ActionStep.perform 92 1)
    ∷ (40500, ActionStep.fail 91 1 Failure.crash)
    ∷ (40600, ActionStep.finish_submit 7 (codes "k1") (codes "dm.send") 2)
    ∷ []

executions_at_most_once_example : executions services 1 a_race one_action ≤ 1
executions_at_most_once_example =
    executions_at_most_once 1 services a_race one_action (ground arith)

submit_action_again_example :
    (a' : FederationActionEntity ℕ) × ((submit_action services 900 agent
        (some (codes " k1 "))
        (some (codes "dm.send"))
        (PayloadInput.object 2)
        (take_steps services a_race
          (submit_action services 100 agent
            (some (codes " k1 "))
            (some (codes "dm.send"))
            (PayloadInput.object 2)
            no_action).1)).0
      ≡ ok (false, a'))
    × ((submit_action services 900 agent
          (some (codes " k1 "))
          (some (codes "dm.send"))
          (PayloadInput.object 2)
          (take_steps services a_race
            (submit_action services 100 agent
              (some (codes " k1 "))
              (some (codes "dm.send"))
              (PayloadInput.object 2)
              no_action).1)).1.actions
        ≡ (take_steps services a_race
            (submit_action services 100 agent
              (some (codes " k1 "))
              (some (codes "dm.send"))
              (PayloadInput.object 2)
              no_action).1).actions)
    × (a'.id ≡ 1)
unfolding submit_action finish_submission normalize_payload save_action recover_concurrent
    record_agent_activity trim trim_start find_one exists insert_row
submit_action_again_example =
    submit_action_again services agent (some (codes " k1 ")) (some (codes "dm.send"))
      (PayloadInput.object 2) 100 900 a_race no_action true
      (new_action 100 7 (codes "dm.send") (codes "k1") 9 2 1) refl

process_accepted_action-IsSettled_example :
    IsSettled 1 (process_accepted_action services 200 91 1 one_action).1.actions
unfolding find_one
process_accepted_action-IsSettled_example =
    process_accepted_action-IsSettled services 200 91 1 one_action a_message refl refl
