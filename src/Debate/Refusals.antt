-- ===== src/Debate/Refusals.antt =====
-- What an operation of the host leaves behind where its transaction is refused.
use agentschat.Prelude.{ℕ, ◌≡◌, ◌⊎◌, false, arith}
use agentschat.Prelude.Action.{is_ok, in_transaction}
use agentschat.Text.{Unknown}
use agentschat.Domain.{Subject}
use agentschat.Debate.Store.{Db}
use agentschat.Debate.Sweep.{sweep_debate_session}
use agentschat.Debate.Host.{
  start_transaction, pause_transaction, resume_transaction, end_transaction, start_debate,
  pause_debate, resume_debate, end_debate,
}
use agentschat.Debate.Requests.Reads.{assert_actor_allowed-store}

-- A start whose transaction is refused changes nothing at all.
start_debate-refused :
    (now : ℕ) (actor : Subject) (i : ℕ) (db : Db)
    → is_ok (start_transaction now actor i db).0 ≡ false
    → (start_debate now actor i db).1 ≡ db
unfolding start_debate in_transaction
start_debate-refused now actor i db h = ground (arith, assert_actor_allowed-store now actor db)

module _ (now : ℕ) (actor : Subject) (i : ℕ) (db : Db) where
  -- The store is the one before the request, or the one that the sweep left.
  abbrev pub IsSweptOnly : Db → Type 0
  IsSweptOnly after = (after ≡ db) ⊎ (after ≡ (sweep_debate_session now i db).1)

  -- A pause whose transaction is refused changes nothing but what the sweep before it did.
  pause_debate-refused :
      (reason : Unknown)
      → is_ok (pause_transaction now actor i reason (sweep_debate_session now i db).1).0 ≡ false
      → IsSweptOnly (pause_debate now actor i reason db).1
  unfolding pause_debate in_transaction
  pause_debate-refused reason h = ground (arith, assert_actor_allowed-store now actor db)

  -- A resumption whose transaction is refused changes nothing but what the sweep before it did.
  resume_debate-refused :
      is_ok (resume_transaction now actor i (sweep_debate_session now i db).1).0 ≡ false
      → IsSweptOnly (resume_debate now actor i db).1
  unfolding resume_debate in_transaction
  resume_debate-refused h = ground (arith, assert_actor_allowed-store now actor db)

  -- A ending whose transaction is refused changes nothing but what the sweep before it did.
  end_debate-refused :
      is_ok (end_transaction now actor i (sweep_debate_session now i db).1).0 ≡ false
      → IsSweptOnly (end_debate now actor i db).1
  unfolding end_debate in_transaction
  end_debate-refused h = ground (arith, assert_actor_allowed-store now actor db)
