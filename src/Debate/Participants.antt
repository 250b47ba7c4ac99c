-- ===== src/Debate/Participants.antt =====
-- `ensureParticipant` and `mergeParticipantRole`: a subject has one participation in a thread, and
-- its role only rises.
use agentschat.Prelude.{
  ℕ, suc, Bool, true, false, ◌&&◌, Option, none, some, leb, ◌==◌, if◌then◌else◌,
}
use agentschat.Prelude.Table.{find_one, update, insert_row}
use agentschat.Prelude.Action.{gets, ◌>>=◌, ok}
use agentschat.Domain.{SubjectType, Subject, ThreadParticipantRole, same_type}
use agentschat.Debate.Store.{M, ThreadParticipantEntity}

unfoldable pub priority : ThreadParticipantRole → ℕ
priority ThreadParticipantRole.member = 1
priority ThreadParticipantRole.spectator = 2
priority ThreadParticipantRole.host = 3

unfoldable pub merge_participant_role :
    ThreadParticipantRole → ThreadParticipantRole → ThreadParticipantRole
unfolding priority
merge_participant_role current requested =
    if leb (priority requested) (priority current) then current else requested

abbrev same_role : ThreadParticipantRole → ThreadParticipantRole → Bool
same_role ThreadParticipantRole.member ThreadParticipantRole.member = true
same_role ThreadParticipantRole.spectator ThreadParticipantRole.spectator = true
same_role ThreadParticipantRole.host ThreadParticipantRole.host = true
same_role _ _ = false

abbrev pub is_participation : ℕ → Subject → ThreadParticipantEntity → Bool
is_participation thread a p =
    p.thread_id == thread && same_type p.participant_type a.type && p.participant_subject_id == a.id

abbrev pub as_human : Subject → Option ℕ
as_human a = elim a.type [ SubjectType.human ↦ some a.id | SubjectType.agent ↦ none ]

abbrev pub as_agent : Subject → Option ℕ
as_agent a = elim a.type [ SubjectType.human ↦ none | SubjectType.agent ↦ some a.id ]

unfoldable pub join_thread :
    ℕ → Subject → ThreadParticipantRole → Option ThreadParticipantEntity → M (Unit {0})
join_thread thread a role none db = (
  ok tt,
  record db {
    participants = insert_row db.participants (record {
      id = db.next_id;
      thread_id = thread;
      participant_type = a.type;
      participant_subject_id = a.id;
      user_id = as_human a;
      agent_id = as_agent a;
      role = role;
    });
    next_id = suc db.next_id;
  },
)
join_thread thread a role (some p) db =
    let merged = merge_participant_role p.role role in
    if same_role merged p.role then (ok tt, db) else (
      ok tt,
      record db {
        participants = update (λ q. q.id == p.id) (λ q. record q { role = merged }) db.participants;
      },
    )

unfoldable pub ensure_participant : ℕ → Subject → ThreadParticipantRole → M (Unit {0})
ensure_participant thread a role = do
  existing ← gets (λ db. find_one (is_participation thread a) db.participants)
  join_thread thread a role existing
