-- ===== src/Federation/PollLaws.antt =====
-- What a poll returns: bounded, and in the end.
use agentschat.Prelude.{ℕ, ◌≡◌, ◌≤◌, inl, inr, List, [], ◌∷◌, ◌++◌, Option, arith, length}
use agentschat.Prelude.Returns.{Returns}
use agentschat.Prelude.Action.{ok, Result-cases}
use agentschat.Text.{Text}
use agentschat.Federation.Store.{FederationDb, Environment, FederatedAgent}
use agentschat.Federation.Poll.{
  Payload, PollResult, bounded_limit, collect_pollable_deliveries, poll_rounds, last_cursor,
  parse_cursor,
}

-- No more payloads than there are deliveries to look at.
AtMost : ℕ → List Payload → Type 0
AtMost n ps = length ps ≤ n

-- What a poll may return.
pub record IsBounded (limit : Option ℕ) (ps : List Payload) : Type 0 where
  pub asked : length ps ≤ bounded_limit limit
  pub at_most_50 : length ps ≤ 50

-- The answer's deliveries are bounded, and its cursor is theirs, or the request's where there are none.
pub record IsAnswer (cursor limit : Option ℕ) (r : PollResult) : Type 0 where
  pub bounded : IsBounded limit r.deliveries
  pub follows : r.cursor ≡ last_cursor cursor r.deliveries

-- The cursor that the request means.
Means : Option Text → Option ℕ → Type 0
Means cursor from = (db : FederationDb) → (parse_cursor cursor db).0 ≡ ok from

Answers : Option Text → Option ℕ → PollResult → Type 0
Answers cursor limit r = (from : Option ℕ) × Means cursor from × IsAnswer from limit r

-- The loop looks no further than the first reading of the clock at or after its deadline: whatever
-- readings come after that, the poll does the same, so that it ends by then.
pub poll_rounds_ends :
    (e : Environment) (a : FederatedAgent) (cursor limit : Option ℕ) (deadline t : ℕ)
    (before after : List ℕ) (db : FederationDb)
    → deadline ≤ t
    → poll_rounds e a cursor limit deadline (before ++ t ∷ after) db
      ≡ poll_rounds e a cursor limit deadline (before ++ t ∷ []) db
unfolding poll_rounds
poll_rounds_ends e a cursor limit deadline t [] after db h =
    elim (Result-cases (collect_pollable_deliveries e t a.id limit db).0) [
      | inl (ps, f) ↦ ground arith
      | inr (x, f) ↦ ground arith
    ]
poll_rounds_ends e a cursor limit deadline t (s ∷ before) after db h =
    let later = (collect_pollable_deliveries e s a.id limit db).1 in
    elim (Result-cases (collect_pollable_deliveries e s a.id limit db).0) [
      | inl (ps, f) ↦
          ground (arith, poll_rounds_ends e a cursor limit deadline t before after later)
      | inr (x, f) ↦ ground arith
    ]
