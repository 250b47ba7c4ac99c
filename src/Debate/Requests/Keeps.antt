-- ===== src/Debate/Requests/Keeps.antt =====
-- What every transaction and the archiving of a debate keep, every request keeps: the other parts of
-- a request write no table but the agents' statuses and the list of notified events.
use agentschat.Prelude.{
  ℕ, ◌≡◌, refl, inl, inr, Bool, true, false, not, some, none, Option, List, [], ◌∷◌, arith,
  Bool-cases, ◌==◌, ltb, length, sym, subst,
}
use agentschat.Prelude.Keeps.{Preorder, Keeps, Keeps-same, Keeps-bind, Keeps-then, Keeps-throw_if}
use agentschat.Prelude.Action.{in_transaction, pure, or_throw, ◌>>◌}
use agentschat.Text.{Unknown}
use agentschat.Domain.{Subject, SubjectType}
use agentschat.Debate.Store.{
  Db, M, AgentEntity, HttpException, surface_blocked, content_rejected, host_type_invalid,
  host_mismatch,
}
use agentschat.Debate.Ending.{Outcome}
use agentschat.Debate.Presence.{process_event_ids, sync_agent_statuses, sync_each, unique_from}
use agentschat.Debate.Sweep.{Swept, sweep_transaction, publish_sweep, sweep_debate_session}
use agentschat.Debate.Host.{
  start_transaction, pause_transaction, resume_transaction, end_transaction, publish, start_debate,
  pause_debate, resume_debate, end_debate,
}
use agentschat.Debate.Submit.{agent_subject, TurnInput, Submitted, submit_transaction}
use agentschat.Debate.Create.{
  CreateDebateInput, Motion, create_transaction, create_debate, is_other_type, is_other_id,
  named_host, required_string, create_human_hosted_debate, create_agent_hosted_debate,
}
use agentschat.Debate.Eligible.{assert_agent_eligible, assert_distinct_debate_roles}
use agentschat.Debate.Seating.{
  AssignReplacementInput, replacement_transaction, assign_replacement_seat,
}
use agentschat.Debate.Requests.{
  assert_debate_writable, publish_turn, submit_debate_turn, Request, create_as_human,
  create_as_agent, start, end, pause, resume, replace, submit, sweep, read_archive, handle, serve,
}
use agentschat.Debate.Archive.{get_debate_archive}
use agentschat.Moderation.Actor.{assert_actor_allowed}
use agentschat.Debate.Requests.Reads.{
  process_event_ids-notified, assert_actor_allowed-store, missing, sync_each-agents,
  assert_debate_writable-store, required_string-store, assert_agent_eligible-store, too_long_error,
}

-- The relation looks only at what transactions and the archiving write.
pub record Transactional (P : Preorder Db) : Type 0 where
  pub after_commit :
      (db : Db) (agents : List AgentEntity) (notified : List ℕ)
      → P.Le db (record db { agents = agents; notified = notified })
  pub sweeps : (now i : ℕ) → Keeps P (in_transaction (sweep_transaction now i))
  pub starts :
      (now : ℕ) (actor : Subject) (i : ℕ) → Keeps P (in_transaction (start_transaction now actor i))
  pub pauses :
      (now : ℕ) (actor : Subject) (i : ℕ) (reason : Unknown)
      → Keeps P (in_transaction (pause_transaction now actor i reason))
  pub resumes :
      (now : ℕ) (actor : Subject) (i : ℕ)
      → Keeps P (in_transaction (resume_transaction now actor i))
  pub ends :
      (now : ℕ) (actor : Subject) (i : ℕ) → Keeps P (in_transaction (end_transaction now actor i))
  pub replaces :
      (now : ℕ) (actor : Subject) (i : ℕ) (seat : Option ℕ) (agent : ℕ)
      → Keeps P (in_transaction (replacement_transaction now actor i seat agent))
  pub submits :
      (now agent : ℕ) (input : TurnInput)
      → Keeps P (in_transaction (submit_transaction now agent input))
  pub archives : (now i : ℕ) (readable : Bool) → Keeps P (get_debate_archive now i readable)
  pub creates :
      (now : ℕ) (host : Subject) (m : Motion) (free human : Bool) (a b : ℕ)
      → (a == b) ≡ false
      → Keeps P (in_transaction (create_transaction now host m free human a b))

module _ (P : Preorder Db) (t : Transactional P) where
  Keeps-process_event_ids : (ids : List ℕ) → Keeps P (process_event_ids ids)
  Keeps-process_event_ids ids = record {
    at = λ db.
        subst (λ d. P.Le db d) (sym (process_event_ids-notified ids db))
          (t.after_commit db db.agents (process_event_ids ids db).1.notified);
  }

  Keeps-sync_agent_statuses : (ids : List ℕ) → Keeps P (sync_agent_statuses ids)
  unfolding sync_agent_statuses
  Keeps-sync_agent_statuses ids = record {
    at = λ db.
        let us = unique_from [] ids in
        subst (λ d. P.Le db d) (sym (sync_each-agents us db))
          (t.after_commit db (sync_each us db).agents db.notified);
  }

  Keeps-publish : (o : Outcome) → Keeps P (publish o)
  unfolding publish
  Keeps-publish o =
      Keeps-then P _ _ (Keeps-process_event_ids _)
        (Keeps-then P _ _ (Keeps-sync_agent_statuses _) (Keeps-same P _ (λ s. refl)))

  Keeps-assert_actor_allowed :
      (now : ℕ) (actor : Subject) → Keeps P (assert_actor_allowed now actor)
  Keeps-assert_actor_allowed now actor = Keeps-same P _ (assert_actor_allowed-store now actor)

  Keeps-publish_sweep : (s : Swept) → Keeps P (publish_sweep s)
  unfolding publish_sweep
  Keeps-publish_sweep none = Keeps-same P _ (λ s. refl)
  Keeps-publish_sweep (some (events, agents)) =
      Keeps-then P _ _ (Keeps-process_event_ids _) (Keeps-sync_agent_statuses _)

  pub Keeps-sweep : (now i : ℕ) → Keeps P (sweep_debate_session now i)
  unfolding sweep_debate_session
  Keeps-sweep now i = Keeps-bind P _ _ (t.sweeps now i) Keeps-publish_sweep

  Keeps-start : (now : ℕ) (actor : Subject) (i : ℕ) → Keeps P (start_debate now actor i)
  unfolding start_debate
  Keeps-start now actor i =
      Keeps-then P _ _ (Keeps-assert_actor_allowed now actor)
        (Keeps-bind P _ _ (t.starts now actor i) Keeps-publish)

  Keeps-pause :
      (now : ℕ) (actor : Subject) (i : ℕ) (reason : Unknown)
      → Keeps P (pause_debate now actor i reason)
  unfolding pause_debate
  Keeps-pause now actor i reason = Keeps-then P _ _ (Keeps-assert_actor_allowed now actor) (
      Keeps-then P _ _ (Keeps-sweep now i)
        (Keeps-bind P _ _ (t.pauses now actor i reason) Keeps-publish))

  Keeps-resume : (now : ℕ) (actor : Subject) (i : ℕ) → Keeps P (resume_debate now actor i)
  unfolding resume_debate
  Keeps-resume now actor i = Keeps-then P _ _ (Keeps-assert_actor_allowed now actor) (
      Keeps-then P _ _ (Keeps-sweep now i) (Keeps-bind P _ _ (t.resumes now actor i) Keeps-publish))

  Keeps-end : (now : ℕ) (actor : Subject) (i : ℕ) → Keeps P (end_debate now actor i)
  unfolding end_debate
  Keeps-end now actor i =
      Keeps-then P _ _ (Keeps-assert_actor_allowed now actor)
        (Keeps-then P _ _ (Keeps-sweep now i) (Keeps-bind P _ _ (t.ends now actor i) Keeps-publish))

  Keeps-pure : {A : Type 0} (a : A) → Keeps P (pure {S = Db} {E = HttpException} a)
  Keeps-pure a = Keeps-same P _ (λ s. refl)

  Keeps-or_throw : {A : Type 0} (o : Option A) (e : HttpException) → Keeps P (or_throw {S = Db} o e)
  Keeps-or_throw none e = Keeps-same P _ (λ s. refl)
  Keeps-or_throw (some a) e = Keeps-same P _ (λ s. refl)

  Keeps-replace :
      (now : ℕ) (actor : Subject) (input : AssignReplacementInput)
      → Keeps P (assign_replacement_seat now actor input)
  unfolding assign_replacement_seat
  Keeps-replace now actor input = Keeps-then P _ _ (Keeps-assert_actor_allowed now actor) (
      Keeps-bind P _ _ (Keeps-or_throw input.debate_session_id missing) λ i.
        Keeps-bind P _ _ (Keeps-or_throw input.agent_id missing) λ agent.
          Keeps-then P _ _ (Keeps-assert_actor_allowed now (agent_subject agent)) (
            Keeps-then P _ _ (Keeps-sweep now i) (
              Keeps-bind P _ _ (t.replaces now actor i input.seat_id agent) λ assigned.
                Keeps-then P _ _ (Keeps-process_event_ids (assigned.1 ∷ []))
                  (Keeps-pure assigned))))

  Keeps-required_string : (v : Unknown) → Keeps P (required_string v)
  Keeps-required_string v = Keeps-same P _ (required_string-store v)

  Keeps-assert_debate_writable : (i : ℕ) → Keeps P (assert_debate_writable i)
  Keeps-assert_debate_writable i = Keeps-same P _ (assert_debate_writable-store i)

  Keeps-publish_turn : (s : Submitted) → Keeps P (publish_turn s)
  unfolding publish_turn
  Keeps-publish_turn s =
      Keeps-then P _ _ (Keeps-process_event_ids (s.0 ∷ s.2.0))
        (Keeps-then P _ _ (Keeps-sync_agent_statuses _) (Keeps-pure s))

  Keeps-submit :
      (now agent : ℕ) (input : TurnInput) (surface content : Bool)
      → Keeps P (submit_debate_turn now agent input surface content)
  unfolding submit_debate_turn
  Keeps-submit now agent input surface content =
      Keeps-then P _ _ (Keeps-assert_actor_allowed now (agent_subject agent)) (
        Keeps-throw_if P (not surface) (HttpException.forbidden surface_blocked) _ λ _.
          Keeps-then P _ _ (Keeps-sweep now input.debate_session_id) (
            Keeps-then P _ _ (Keeps-assert_debate_writable input.debate_session_id) (
              Keeps-throw_if P (not content) (HttpException.bad_request content_rejected) _
                λ _. Keeps-bind P _ _ (t.submits now agent input) Keeps-publish_turn)))

  Keeps-assert_agent_eligible : (a : ℕ) → Keeps P (assert_agent_eligible a)
  Keeps-assert_agent_eligible a = Keeps-same P _ (assert_agent_eligible-store a)

  Keeps-distinct :
      {A : Type 0} (host : Subject) (a b : ℕ) (k : M A)
      → ((a == b) ≡ false → Keeps P k)
      → Keeps P (assert_distinct_debate_roles host a b >> k)
  unfolding assert_distinct_debate_roles
  Keeps-distinct host a b k h = record {
    at = λ s. elim (Bool-cases (a == b)) [
      | inl same ↦ ground (arith, P.le_refl s)
      | inr differ ↦ ground (arith, P.le_refl s, (h differ).at s)
    ];
  }

  Keeps-create_debate :
      (now : ℕ) (host : Subject) (input : CreateDebateInput) (human : Bool)
      → Keeps P (create_debate now host input human)
  unfolding create_debate
  Keeps-create_debate now host input human =
      Keeps-bind P _ _ (Keeps-required_string input.topic) λ topic.
        Keeps-bind P _ _ (Keeps-required_string input.pro_stance) λ pro_stance.
          Keeps-bind P _ _ (Keeps-required_string input.con_stance) λ con_stance.
            Keeps-throw_if P (ltb 280 (length topic)) too_long_error _ λ _.
              Keeps-throw_if P (ltb 280 (length pro_stance)) too_long_error _ λ _.
                Keeps-throw_if P (ltb 280 (length con_stance)) too_long_error _ λ _.
                  Keeps-bind P _ _ (Keeps-or_throw input.pro_agent_id missing) λ a.
                    Keeps-bind P _ _ (Keeps-or_throw input.con_agent_id missing) λ b.
                      Keeps-distinct host a b _ λ distinct.
                        Keeps-then P _ _ (Keeps-assert_agent_eligible a) (
                          Keeps-then P _ _ (Keeps-assert_agent_eligible b) (
                            Keeps-bind P _ _ (t.creates now host _ _ human a b distinct) λ created.
                              Keeps-then P _ _
                                (Keeps-process_event_ids
                                  (created.event_id ∷ created.follow_up_event_ids))
                                (Keeps-pure created)))

  Keeps-create_as_human :
      (now human : ℕ) (input : CreateDebateInput)
      → Keeps P (create_human_hosted_debate now human input)
  unfolding create_human_hosted_debate
  Keeps-create_as_human now human input = Keeps-then P _ _ (Keeps-assert_actor_allowed now _) (
      Keeps-throw_if P (is_other_type SubjectType.human input.host_type)
        (HttpException.bad_request host_type_invalid) _ λ _. Keeps-create_debate now _ input true)

  Keeps-create_as_agent :
      (now agent : ℕ) (input : CreateDebateInput)
      → Keeps P (create_agent_hosted_debate now agent input)
  unfolding create_agent_hosted_debate
  Keeps-create_as_agent now agent input = Keeps-then P _ _ (Keeps-assert_actor_allowed now _) (
      Keeps-throw_if P (is_other_type SubjectType.agent input.host_type)
        (HttpException.conflict host_type_invalid) _
        λ _.
          Keeps-throw_if P (is_other_id agent (named_host input))
            (HttpException.conflict host_mismatch) _ λ _. Keeps-create_debate now _ input _)

  -- Every request keeps what the transactions keep.
  pub handle-keeps : (now : ℕ) (r : Request) (db : Db) → P.Le db (handle now r db)
  unfolding handle
  handle-keeps now (create_as_human human input) db = (Keeps-create_as_human now human input).at db
  handle-keeps now (create_as_agent agent input) db = (Keeps-create_as_agent now agent input).at db
  handle-keeps now (start actor i) db = (Keeps-start now actor i).at db
  handle-keeps now (end actor i) db = (Keeps-end now actor i).at db
  handle-keeps now (pause actor i reason) db = (Keeps-pause now actor i reason).at db
  handle-keeps now (resume actor i) db = (Keeps-resume now actor i).at db
  handle-keeps now (replace actor input) db = (Keeps-replace now actor input).at db
  handle-keeps now (submit agent input surface content) db =
      (Keeps-submit now agent input surface content).at db
  handle-keeps now (sweep i) db = (Keeps-sweep now i).at db
  handle-keeps now (read_archive i readable) db = (t.archives now i readable).at db

  pub serve-keeps : (rs : List (ℕ × Request)) (db : Db) → P.Le db (serve rs db)
  unfolding serve
  serve-keeps [] db = P.le_refl db
  serve-keeps ((now, r) ∷ rest) db =
      P.le_trans db (handle now r db) (serve rest (handle now r db)) (handle-keeps now r db)
        (serve-keeps rest (handle now r db))
