-- ===== src/Actions/Once.antt =====
-- An action is executed at most once, whatever processes and leases do.
use agentschat.Prelude.{
  ℕ, ◌≡◌, ◌≤◌, ◌<◌, refl, sym, subst, inl, inr, true, false, List, [], ◌∷◌, arith, ◌==◌, Bool-cases,
  Option-cases,
}
use agentschat.Prelude.Table.{exists, find_one}
use agentschat.Prelude.Every.{every}
use agentschat.Prelude.Action.{is_ok, in_transaction, Result-cases}
use agentschat.Actions.Store.{ActionsDb, Services, action_by_id, is_owned_by}
use agentschat.Actions.Process.{execute_action, perform_held, perform_action}
use agentschat.Actions.Steps.{ActionStep, take_step, executes, executions}
use agentschat.Actions.Keep.{take_step-Le}
use agentschat.Actions.Spending.{is_spent, not_owned, settles_all, spending, writes}

module _ {J B : Type 0} (i : ℕ) where
  perform_held_spends :
      (sv : Services J B) (now : ℕ) (db : ActionsDb J B)
      → is_ok (perform_held sv now i db).0 ≡ true
      → every (is_spent i) (perform_held sv now i db).1.actions ≡ true
  unfolding perform_held
  perform_held_spends sv now db h = elim (Option-cases (find_one (action_by_id i) db.actions)) [
    | inl missing ↦ absurd (ground arith)
    | inr (a, found) ↦ elim (Result-cases (execute_action sv a db.business).0) [
      | inl (r, done) ↦ ground (arith, settles_all i now r db.actions)
      | inr (f, thrown) ↦ absurd (ground arith)
    ]
  ]

  perform_action_spends :
      (sv : Services J B) (now owner : ℕ) (db : ActionsDb J B)
      → exists (is_owned_by owner i) db.actions ≡ true
      → is_ok (perform_action sv now owner i db).0 ≡ true
      → every (is_spent i) (perform_action sv now owner i db).1.actions ≡ true
  unfolding perform_action in_transaction
  perform_action_spends sv now owner db held h = elim (Result-cases (perform_held sv now i db).0) [
    | inl (u, done) ↦ ground (arith, perform_held_spends sv now db)
    | inr (f, thrown) ↦ absurd (ground arith)
  ]

  executes_spends :
      (sv : Services J B) (now : ℕ) (s : ActionStep J) (db : ActionsDb J B)
      → executes sv now i s db ≡ true
      → every (is_spent i) (take_step sv now s db).actions ≡ true
  unfolding executes take_step
  executes_spends sv now (ActionStep.perform owner j) db h = elim (Bool-cases (j == i)) [
    | inl same ↦
        let eq : j ≡ i = ground arith in
        subst (λ k. every (is_spent i) (perform_action sv now owner k db).1.actions ≡ true) (sym eq)
          (perform_action_spends sv now owner db
            (subst (λ k. exists (is_owned_by owner k) db.actions ≡ true) eq (ground arith))
            (subst (λ k. is_ok (perform_action sv now owner k db).0 ≡ true) eq (ground arith)))
    | inr other ↦ absurd (ground arith)
  ]
  executes_spends sv now _ db h = absurd (ground arith)

  no_execution :
      (sv : Services J B) (now : ℕ) (s : ActionStep J) (db : ActionsDb J B)
      → every (is_spent i) db.actions ≡ true
      → executes sv now i s db ≡ false
  unfolding executes
  no_execution sv now (ActionStep.perform owner j) db h = elim (Bool-cases (j == i)) [
    | inl same ↦
        let eq : i ≡ j = ground arith in
        ground (
          arith,
          subst (λ k. exists (is_owned_by owner k) db.actions ≡ false) eq
              (not_owned i owner db.actions h),
        )
    | inr other ↦ ground arith
  ]
  no_execution sv now _ db h = refl

  no_executions :
      (sv : Services J B) (steps : List (ℕ × ActionStep J)) (db : ActionsDb J B)
      → i < db.next_id
      → every (is_spent i) db.actions ≡ true
      → executions sv i steps db ≡ 0
  unfolding executions
  no_executions sv [] db l h = refl
  no_executions sv ((now, s) ∷ rest) db l h =
      let k = take_step-Le (spending i) (writes i) sv now s db in
      let grows = k.grows in
      ground (
        arith,
        no_execution sv now s db h,
        no_executions sv rest (take_step sv now s db) (ground arith) (k.stays l h),
      )

  -- Whatever processes do, with leases that run out at any time and owners of any name, the work of
  -- an action that was accepted is done and committed at most once.
  pub executions_at_most_once :
      (sv : Services J B) (steps : List (ℕ × ActionStep J)) (db : ActionsDb J B)
      → i < db.next_id
      → executions sv i steps db ≤ 1
  unfolding executions
  executions_at_most_once sv [] db l = ground arith
  executions_at_most_once sv ((now, s) ∷ rest) db l =
      let k = take_step-Le (spending i) (writes i) sv now s db in
      let grows = k.grows in
      let later : i < (take_step sv now s db).next_id = ground arith in
      elim (Bool-cases (executes sv now i s db)) [
        | inl done ↦ ground (
          arith,
          no_executions sv rest (take_step sv now s db) later (executes_spends sv now s db done),
        )
        | inr other ↦ ground (arith, executions_at_most_once sv rest (take_step sv now s db) later)
      ]
