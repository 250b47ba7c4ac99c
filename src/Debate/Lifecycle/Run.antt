-- ===== src/Debate/Lifecycle/Run.antt =====
-- Every request moves each session along the diagram of statuses.
use agentschat.Prelude.{
  ℕ, ◌≡◌, refl, inl, inr, Bool, true, ◌&&◌, ◌||◌, Bool-cases, some, Option, List, arith,
  Option-cases, subst, sym,
}
use agentschat.Prelude.Table.{find_one}
use agentschat.Prelude.Keeps.{Preorder, Keeps, Keeps-in_transaction}
use agentschat.Prelude.Action.{in_transaction}
use agentschat.Text.{Unknown}
use agentschat.Domain.{Subject, DebateSessionStatus, is_live, is_paused, is_pending, is_ended}
use agentschat.Debate.Store.{Db, DebateSessionEntity, session_by_id}
use agentschat.Debate.Host.{
  start_transaction, resume_transaction, pause_transaction, end_transaction, started, resumed,
  host_ending,
}
use agentschat.Debate.Sweep.{sweep_session, sweep_transaction}
use agentschat.Debate.Lifecycle.Status.{
  ◌⟶*◌, here, then, start, pause, resume, cancel, finish, stop, Evolves, Evolves-refl,
  Evolves-trans, Evolves-by, Evolves-insert_row, is_over, over-⟶*, archive,
}
use agentschat.Debate.Submit.{TurnInput, submit_transaction}
use agentschat.Debate.Create.{Motion, create_transaction}
use agentschat.Debate.Seating.{replacement_transaction}
use agentschat.Debate.Requests.{Request, serve}
use agentschat.Debate.Requests.Keeps.{Transactional, serve-keeps}
use agentschat.Debate.Prepared.{prepare_turn_submission-IsPrepared}
use agentschat.Debate.Archive.{archived, archive_debate_session, get_debate_archive}
use agentschat.Debate.Lifecycle.Submission.{
  submit_transaction-cases, advanced_to, replacement_transaction-sessions,
  create_transaction-sessions,
}
use agentschat.Debate.Lifecycle.Effects.{
  ended_at, paused_at, start_transaction-sessions, resume_transaction-sessions,
  pause_transaction-sessions, finalize_debate_session-sessions, sweep_session-cases,
}

from_pending : (s : DebateSessionStatus) → is_pending s ≡ true → s ⟶* DebateSessionStatus.live
from_pending DebateSessionStatus.pending h = then here start
from_pending _ h = cc

from_paused : (s : DebateSessionStatus) → is_paused s ≡ true → s ⟶* DebateSessionStatus.live
from_paused DebateSessionStatus.paused h = then here resume
from_paused _ h = cc

from_live : (s : DebateSessionStatus) → is_live s ≡ true → s ⟶* DebateSessionStatus.paused
from_live DebateSessionStatus.live h = then here pause
from_live _ h = cc

to_ended :
    (s : DebateSessionStatus)
    → is_pending s || is_live s || is_paused s ≡ true
    → s ⟶* DebateSessionStatus.ended
to_ended DebateSessionStatus.pending h = then here cancel
to_ended DebateSessionStatus.live h = then here finish
to_ended DebateSessionStatus.paused h = then here stop
to_ended _ h = cc

abbrev pub evolution : Preorder Db
evolution = record {
  Le = λ db db'. Evolves db.sessions db'.sessions;
  le_refl = λ db. Evolves-refl db.sessions db.sessions refl;
  le_trans = λ db db' db''. Evolves-trans db.sessions db'.sessions db''.sessions;
}

module _ (now : ℕ) (actor : Subject) (i : ℕ) where
  start_transaction-Evolves : Keeps evolution (in_transaction (start_transaction now actor i))
  start_transaction-Evolves = Keeps-in_transaction evolution _ λ db o h.
      elim (Option-cases (find_one (session_by_id i) db.sessions)) [
        | inl no_row ↦ absurd (unfold start_transaction in ground arith)
        | inr (d, e) ↦
            let (was, changed) = start_transaction-sessions now actor i db d o e h in
            Evolves-by _ _ i d (started now o.current_turn_number d) (λ _. refl) e changed
              (from_pending d.status was)
      ]

  resume_transaction-Evolves : Keeps evolution (in_transaction (resume_transaction now actor i))
  resume_transaction-Evolves = Keeps-in_transaction evolution _ λ db o h.
      elim (Option-cases (find_one (session_by_id i) db.sessions)) [
        | inl no_row ↦ absurd (unfold resume_transaction in ground arith)
        | inr (d, e) ↦
            let (was, changed) = resume_transaction-sessions now actor i db d o e h in
            Evolves-by _ _ i d (resumed o.current_turn_number) (λ _. refl) e changed
              (from_paused d.status was)
      ]

  pause_transaction-Evolves :
      (reason : Unknown) → Keeps evolution (in_transaction (pause_transaction now actor i reason))
  pause_transaction-Evolves reason = Keeps-in_transaction evolution _ λ db o h.
      elim (Option-cases (find_one (session_by_id i) db.sessions)) [
        | inl no_row ↦ absurd (unfold pause_transaction in ground arith)
        | inr (d, e) ↦
            let (was, changed) = pause_transaction-sessions now actor i db d o e reason h in
            Evolves-by _ _ i d _ (λ _. refl) e changed (from_live d.status was)
      ]

  end_transaction-Evolves : Keeps evolution (in_transaction (end_transaction now actor i))
  end_transaction-Evolves = Keeps-in_transaction evolution _ λ db o h.
      elim (Option-cases (find_one (session_by_id i) db.sessions)) [
        | inl no_row ↦ absurd (unfold end_transaction in ground arith)
        | inr (d, e) ↦
            let (n, changed) = finalize_debate_session-sessions now d (host_ending actor d) db in
            Evolves-by _ _ i d (ended_at n) (λ _. refl) e (unfold end_transaction in ground arith)
              (to_ended d.status (unfold end_transaction in ground arith))
      ]

  replacement_transaction-Evolves :
      (seat : Option ℕ) (agent : ℕ)
      → Keeps evolution (in_transaction (replacement_transaction now actor i seat agent))
  replacement_transaction-Evolves seat agent =
      Keeps-in_transaction evolution _
        λ db r h. Evolves-refl _ _ (replacement_transaction-sessions now actor i seat agent db r h)

create_transaction-Evolves :
    (now : ℕ) (host : Subject) (m : Motion) (free human : Bool) (a b : ℕ)
    → Keeps evolution (in_transaction (create_transaction now host m free human a b))
create_transaction-Evolves now host m free human a b = Keeps-in_transaction evolution _ λ db c h.
    subst (Evolves db.sessions) (sym (create_transaction-sessions now host m free human a b db c h))
      (Evolves-insert_row db.sessions _)

submit_transaction-Evolves :
    (now agent : ℕ) (input : TurnInput)
    → Keeps evolution (in_transaction (submit_transaction now agent input))
submit_transaction-Evolves now agent input = Keeps-in_transaction evolution _ λ db s h.
    let (p, n, e, cases) = submit_transaction-cases now agent input db s h in
    let was = prepare_turn_submission-IsPrepared now agent input db p e in
    let d = p.debate_session in
    elim cases [
      | inl on ↦ Evolves-by _ _ _ d (advanced_to n) (λ _. refl) was.session_found on here
      | inr (inl off) ↦
          Evolves-by _ _ _ d (paused_at n) (λ _. refl) was.session_found off
            (from_live d.status was.session_live)
      | inr (inr over) ↦
          Evolves-by _ _ _ d (ended_at n) (λ _. refl) was.session_found over
            (to_ended d.status (ground (arith, was.session_live)))
    ]

sweep_transaction-Evolves : (now i : ℕ) → Keeps evolution (in_transaction (sweep_transaction now i))
sweep_transaction-Evolves now i = Keeps-in_transaction evolution _ λ db s h.
    elim (Option-cases (find_one (session_by_id i) db.sessions)) [
      | inl no_row ↦ Evolves-refl _ _ (unfold sweep_transaction sweep_session in ground arith)
      | inr (d, e) ↦ elim (sweep_session-cases now d db) [
        | inl same ↦ Evolves-refl _ _ (unfold sweep_transaction in ground arith)
        | inr (inl (n, running, changed)) ↦
            Evolves-by _ _ i d (ended_at n) (λ _. refl) e (unfold sweep_transaction in ground arith)
              (to_ended d.status (ground arith))
        | inr (inr (live, (n, changed))) ↦
            Evolves-by _ _ i d (paused_at n) (λ _. refl) e
              (unfold sweep_transaction in ground arith) (from_live d.status live)
      ]
    ]

from_ended : (s : DebateSessionStatus) → is_ended s ≡ true → s ⟶* DebateSessionStatus.archived
from_ended DebateSessionStatus.ended h = then here archive
from_ended _ h = cc

get_debate_archive-Evolves :
    (now i : ℕ) (readable : Bool) → Keeps evolution (get_debate_archive now i readable)
unfolding get_debate_archive archive_debate_session
get_debate_archive-Evolves now i readable = record {
  at = λ db. elim (Option-cases (find_one (session_by_id i) db.sessions)) [
    | inl no_row ↦ Evolves-refl _ _ (ground arith)
    | inr (d, e) ↦ elim (Bool-cases (readable && is_ended d.status)) [
      | inl over ↦
          Evolves-by _ _ i d (archived now d) (λ _. refl) e (ground arith)
            (from_ended d.status (ground arith))
      | inr kept ↦ Evolves-refl _ _ (ground arith)
    ]
  ];
}

transactions-Evolve : Transactional evolution
transactions-Evolve = record {
  after_commit = λ db agents notified. Evolves-refl db.sessions db.sessions refl;
  sweeps = sweep_transaction-Evolves;
  starts = start_transaction-Evolves;
  pauses = pause_transaction-Evolves;
  resumes = resume_transaction-Evolves;
  ends = end_transaction-Evolves;
  replaces = replacement_transaction-Evolves;
  submits = submit_transaction-Evolves;
  archives = get_debate_archive-Evolves;
  creates = λ now host m free human a b _. create_transaction-Evolves now host m free human a b;
}

-- Whatever requests of the debate controller (reading an archive included), turn submissions and
-- sweeps are served, at whatever times, and whether they are accepted or refused: every session that
-- was there is still there, and its status is the same as before or follows from it
-- along the diagram (pending to live or ended, live to paused or ended, paused to live or ended,
-- ended to archived).
pub serve-Evolves : (rs : List (ℕ × Request)) (db : Db) → Evolves db.sessions (serve rs db).sessions
serve-Evolves rs db = serve-keeps evolution transactions-Evolve rs db

-- A session that has ended or is archived is never opened again, whatever requests follow.
serve-over :
    (rs : List (ℕ × Request)) (db : Db) (i : ℕ) (d : DebateSessionEntity)
    → find_one (session_by_id i) db.sessions ≡ some d
    → is_over d.status ≡ true
    → (e : DebateSessionEntity) × (find_one (session_by_id i) (serve rs db).sessions ≡ some e)
      × (is_over e.status ≡ true)
serve-over rs db i d found over =
    let (e, found', path) = serve-Evolves rs db i d found in (e, found', over-⟶* path over)
