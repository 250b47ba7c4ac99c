-- ===== src/Debate/Archive.antt =====
-- Reading the archive of a debate: `getDebateArchive` (debate.service.ts) and
-- `archiveDebateSession` (moderation.service.ts). The replay that is built from the thread's metadata
-- is not modelled.
use agentschat.Prelude.{ℕ, Bool, not, some, or_else, if◌then◌else◌}
use agentschat.Prelude.Action.{pure, throw_if, ◌>>=◌, ◌>>◌}
use agentschat.Domain.{DebateSessionStatus, is_ended}
use agentschat.Debate.Store.{
  M, HttpException, DebateSessionEntity, find_session, update_session, debate_not_found,
}

abbrev pub archived : ℕ → DebateSessionEntity → DebateSessionEntity → DebateSessionEntity
archived now d s = record s {
  status = DebateSessionStatus.archived;
  archived_at = some (or_else d.archived_at now);
}

unfoldable pub archive_debate_session : ℕ → ℕ → M (Unit {0})
unfolding find_session update_session
archive_debate_session now i = do d ← find_session i; update_session d.id (archived now d)

-- The verdict is that of `assertDebatePubliclyReadable`: the debate's thread is not hidden.
unfoldable pub get_debate_archive : ℕ → ℕ → Bool → M (Unit {0})
unfolding find_session
get_debate_archive now i readable = do
  throw_if (not readable) (HttpException.not_found debate_not_found)
  d ← find_session i
  if is_ended d.status then archive_debate_session now i else pure tt
