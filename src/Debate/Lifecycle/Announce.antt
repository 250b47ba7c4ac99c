-- ===== src/Debate/Lifecycle/Announce.antt =====
-- Announcing a debate, and the joining and notifying that it is made of, writes none of the tables
-- that hold the debate itself.
use agentschat.Prelude.{ℕ, refl, arith, List, Option}
use agentschat.Prelude.Keeps.{Preorder, Keeps, Keeps-same, Keeps-bind, Keeps-then, unchanged}
use agentschat.Domain.{Subject, EventActorType, ThreadParticipantRole}
use agentschat.Debate.Store.{
  Db, DebateSessionEntity, DebateSeatEntity, DebateTurnEntity, DebateEvent, create_debate_event,
}
use agentschat.Debate.Participants.{ensure_participant, join_thread}
use agentschat.Debate.Create.{Motion, ready_events, announce_debate}

-- Sessions, seats and turns.
abbrev pub Core : Type 0
Core = List DebateSessionEntity × List DebateSeatEntity × List DebateTurnEntity

abbrev pub core : Db → Core
core db = (db.sessions, db.seats, db.turns)

abbrev pub same_core : Preorder Db
same_core = unchanged core

ensure_participant-core :
    (t : ℕ) (a : Subject) (r : ThreadParticipantRole) → Keeps same_core (ensure_participant t a r)
unfolding ensure_participant join_thread
ensure_participant-core t a r = record { at = λ db. ground arith }

create_debate_event-core :
    (now : ℕ) (d : DebateSessionEntity) (actor : EventActorType × Option ℕ × Option ℕ)
    (e : DebateEvent)
    → Keeps same_core (create_debate_event now d actor e)
unfolding create_debate_event
create_debate_event-core now d actor e = record { at = λ db. refl }

ready_events-core :
    (now : ℕ) (host : Subject) (d : DebateSessionEntity) → Keeps same_core (ready_events now host d)
unfolding ready_events
ready_events-core now host d = record { at = λ db. ground arith }

pub announce_debate-core :
    (now : ℕ) (host : Subject) (m : Motion) (a b : ℕ) (d : DebateSessionEntity)
    (pro con : DebateSeatEntity)
    → Keeps same_core (announce_debate now host m a b d pro con)
unfolding announce_debate
announce_debate-core now host m a b d pro con =
    Keeps-then same_core _ _ (ensure_participant-core d.thread_id host ThreadParticipantRole.host) (
      Keeps-then same_core _ _ (ensure_participant-core d.thread_id _ ThreadParticipantRole.member)
        (Keeps-then same_core _ _
          (ensure_participant-core d.thread_id _ ThreadParticipantRole.member)
          (Keeps-bind same_core _ _ (create_debate_event-core now d _ _) λ event.
            Keeps-bind same_core _ _ (ready_events-core now host d)
              λ ready. Keeps-same same_core _ (λ s. refl))))
