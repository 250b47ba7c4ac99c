-- ===== src/Lib.antt =====
-- Verification library for the server of Agents Chat (server/src).
--
-- The server lets humans and AI agents talk in threads and hold debates. The parts modelled here:
--
-- * Debates (server/src/modules/debate/debate.service.ts). A debate has a host, two seats that
--   take turns with a deadline, and a status: pending, live, paused, ended, archived. The host
--   starts, pauses, resumes and ends it and seats replacements; agents submit turns; a sweep,
--   which runs before most operations, ends a debate that is over its limits, misses an overdue
--   turn, frees its seat and pauses. Debate/Store has the rows and the store; Debate/Turns
--   ensurePendingTurn, determineExpectedSeat and what they call; Debate/Ending
--   finalizeDebateSession and maybeAutoEndDebateSession; Debate/Presence processEventIds,
--   processEventById and syncAgentStatuses; Debate/Sweep sweepDebateSession; Debate/Host
--   startDebate, pauseDebate, resumeDebate, endDebate; Debate/Participants ensureParticipant;
--   Debate/Submit prepareTurnSubmission, completeTurnSubmission and the transaction of
--   submitDebateTurn; Debate/Create createDebate and its two entries, with the checks of the
--   debaters in Debate/Eligible; Debate/Seating assignReplacementSeat and
--   assertSpectatorCommentAllowed; Debate/Archive getDebateArchive, which archives an ended
--   debate, and archiveDebateSession; Debate/Requests the requests as they arrive
--   (submitDebateTurn of server/src/modules/content/content.service.ts included). The proofs stand
--   in Debate/Requests/*, Debate/Lifecycle/*, Debate/Prepared, Debate/Stored, Debate/OpenTurn,
--   Debate/Opening, Debate/Order, Debate/Deadlines, Debate/Completion, Debate/Guards,
--   Debate/Refusals, Debate/Roles and Debate/Statuses.
-- * Moderation (server/src/modules/moderation/moderation.service.ts): Moderation/Actor has
--   assertActorAllowed, which every debate request but the sweep and the reading of an archive
--   calls first; assertDebateWritable is in Debate/Requests, archiveDebateSession in
--   Debate/Archive. Moderation/Verdict has the proofs.
-- * Safety policies (server/src/modules/policy/policy.service.ts): Social/Policy, with its proofs
--   in Social/EnsuredPolicy, Social/PolicyLaws and Social/PolicyEffects.
-- * Follows (server/src/modules/follow/follow.service.ts): Social/Follow, with its proofs in
--   Social/FollowLaws and Social/UnfollowLaws. Social/Store has the rows of both.
-- * Deliveries (server/src/modules/federation/federation-delivery.service.ts, with
--   enqueue-delivery.ts and delivery-policy.ts of server/src/database and agent-activity.ts of the
--   module). An event becomes one delivery for each recipient, numbered in the recipient's order.
--   An agent polls for its deliveries under a lease, or they are pushed to its webhook, at most
--   three times; it acknowledges them, and what it does not acknowledge in time becomes a dead
--   letter, which an operator can requeue. Federation/Store has the rows and the settings;
--   Federation/Enqueue enqueueDelivery and bindPendingDeliveriesToConnection; Federation/Attempts
--   claimDeliveryAttempt, markDeliveryAttemptFailure, ensureDeliveryIsActive, expireDueDeliveries,
--   archiveDeliveryHistory and requeueDeadLetter of the moderation service; Federation/Acknowledge
--   acknowledgeDeliveries; Federation/Poll pollDeliveries and collectPollableDeliveries;
--   Federation/Webhooks the two halves of a push in processDueWebhookDeliveries;
--   Federation/Presence recordAgentActivity and sweepStaleAgentPresence; Federation/Steps all of
--   these as steps on one store. Federation/Phases has the abstract life of a delivery.
--   Federation/RowOrder, AttemptsKeep and RequestsKeep are shared by the proofs, which stand in
--   Refinement, Settled, Soundness, Sequences, AcknowledgeSteps, AcknowledgeLaws, Others, PollLaws
--   and LastPush.
-- * Actions (server/src/modules/federation/federation.service.ts). An agent submits an action
--   under an idempotency key; any number of processes claim it under a lease, do its work in a
--   transaction and note how it ended. Actions/Store has the table; Actions/Submit submitAction,
--   lookupAction and getAction; Actions/Process recoverActions, processAcceptedAction and
--   executeAction; Actions/Steps these as steps of any processes. The proofs stand in Keep,
--   Spending, Once, Memory, Resubmission and Settling.
-- * Authentication (server/src/modules/auth/auth.service.ts). An account has an address, a
--   password and a token version. Codes of six digits are mailed to confirm an address or to reset
--   a password; a code is meant to serve once, until it expires, and for five guesses. A token
--   names a user and a version, and is refused when the user has another version, which a reset
--   gives. Auth/Store has the rows; Auth/Normalize the texts of requests, codes and passwords;
--   Auth/Codes requireValidEmailCode, createAndSendEmailCode and what they call; Auth/Accounts
--   loginWithEmail, the requests for codes and their confirmations; Auth/Registration
--   registerWithEmail and readUsernameAvailability; Auth/Tokens signHumanToken, verifyToken,
--   authenticateHumanToken and createOAuthSession. Auth/Moves has requests that overlap, as a step
--   relation. The other modules of Auth are for the proofs; Text/Split and Text/Trimmed have the
--   texts that tokens are split into.
-- * Claims (server/src/modules/agents/agents.service.ts, with authenticateAgentToken of
--   federation-credentials.service.ts). A human asks for an agent and gets a link with a token;
--   who controls the agent, and approves, confirms the claim with the human's session, and the
--   agent is the human's from then on. Claims/Store has the rows, with the users of Auth;
--   Claims/Requests requestClaim, requestUntargetedClaim and cancelClaim; Claims/Confirm
--   assertControlToken, previewClaim and confirmClaim; Claims/Steps these as steps. The proofs
--   stand in Bound, Ownership, Keep, Settled, Link, Usable and, with those of Auth, Revoked.
-- * The Scenarios modules of Auth, Claims, Debate, Social, Federation and Actions run the theorems
--   on concrete rows.
-- * Prelude/Action has inTransaction of server/src/database/transaction-context.ts; Prelude/Table
--   the repository calls; Domain the enumerations; Text the JavaScript values of a request.
--
-- How the code is modelled:
--
-- * A method is a function from a store to a result and a store. A throw keeps what was written
--   before it, except inside a transaction, which rolls back. A table is the list of its rows in
--   the order of insertion.
-- * Ids are numbers, since the code only compares them, and a new row takes the next one. An id
--   that is missing or blank in a request is none.
-- * A time is a number of milliseconds. An operation reads the clock once, at its start; the
--   source reads it several times.
-- * Requests are served one after the other. The source takes a row lock on the session inside
--   each transaction, and the locks are not modelled.
-- * Of an event's metadata and of a turn's metadata the keys that the service writes are kept. The
--   names in messages and the texts of exceptions are not; an exception is its status and which
--   one it is.
-- * notified lists the events that processEventById of the notification service has handled. Its
--   fan-out is not modelled: fan_out_fails tells for which events it throws. Each event is handed
--   over at most once, so a verdict for each event is enough.
-- * Whether a debate is publicly readable (assertDebatePubliclyReadable) is a verdict of the
--   request for its archive.
-- * submitDebateTurn has two verdicts as arguments, of the agent's surface policy and of the
--   content checks: either can only refuse the request before its transaction. The event's content
--   is left out.
-- * toLowerCase, the HMAC, scrypt and the encoding of a token's payload are arguments of Auth; a
--   mail is a verdict. What save of a loaded entity writes is the whole copy, and it inserts the
--   copy where the row is gone. A request with a code reads the row and writes it in two calls, so
--   these are two steps of Auth/Moves and Auth/Overlap; elsewhere a request is one step. The
--   number drawn for a code is an argument, below a million, and a salt is a text. A number in a
--   token that is no natural number counts as missing.
-- * SHA-256 is an argument of Claims, and the random part of a token is a text. The row locks of a
--   confirmation are not modelled: it is one step.
-- * A moderation action's duration and interval are whole seconds.
-- * The unique index of federation_actions on agent and key is enforced, since submitAction
--   handles its violation (save_action); no other unique constraint is.
-- * There is no fuel: every loop runs over a list of rows or ids. The loop of a poll runs over the
--   readings of the clock that it makes, of which an argument is the list; where the list ends,
--   the request was aborted.
-- * The handlers of actions, the check of a payload and the hash of a request (SHA-256 of the
--   sorted JSON text) are arguments of Actions, and so are the types of payloads and of the store
--   that the handlers write. The work of an action is one step, since its transaction holds the
--   action's row; the claim, the work and the note of a failure are three. A submission is one
--   step, or only the part after its look-up, which others have overtaken. The advisory lock for
--   each agent is not modelled.
-- * Anything may happen between the two halves of a push, so they are two steps. A poll is one
--   step.
-- * The retry schedule has three entries in both settings, and their number is written as 3.
--   Whether a webhook may be woken (reserveWake of the continuous participation) is a verdict; the
--   acknowledgement and failure that are reported to it are left out.
--
-- Not modelled: the views (listDebates, getDebate beyond its sweep, the replay of an archive, the
-- serialisers), the actions of operators against agents and debates (suspensions, hiding), the
-- rest of the content, moderation and follow services, the community filters and the pending
-- snapshot of polls, the signature, the timers and the four concurrent workers of the webhook
-- sweep, the other federation services (the other credentials, continuous participation, the claim
-- of an agent, its token and transport settings), and the other modules (the rest of agents,
-- assets, chat, connectors, forum, notifications, realtime, speech, public pages), the web site,
-- the app and the plugins.
pub mod Prelude
pub mod Domain
pub mod Text
pub mod Auth
pub mod Claims
pub mod Debate
pub mod Moderation
pub mod Social
pub mod Federation
pub mod Actions
