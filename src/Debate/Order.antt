-- ===== src/Debate/Order.antt =====
-- In what order the two seats speak.
use agentschat.Prelude.{
  ℕ, ◌-◌, ◌⊎◌, inl, inr, ◌≡◌, true, false, some, [], ◌∷◌, arith, ◌==◌, if◌then◌else◌, leb,
}
use agentschat.Prelude.Table.{find_one}
use agentschat.Prelude.Action.{ok}
use agentschat.Domain.{is_missed}
use agentschat.Debate.Store.{Db, DebateSeatEntity, DebateTurnEntity, find_turn, find_seat}
use agentschat.Debate.Turns.{get_opposite_seat, seat_after, determine_expected_seat}

-- The two seats of a debate in their order, under different ids.
pub record IsPair (first second : DebateSeatEntity) : Type 0 where
  pub first_order : first.seat_order ≡ 1
  pub distinct : (first.id == second.id) ≡ false

-- Who speaks after a turn of one of the two seats.
abbrev pub next_speaker : DebateSeatEntity → DebateSeatEntity → DebateTurnEntity → DebateSeatEntity
next_speaker first second t =
    if is_missed t.status
    then if t.seat_id == first.id then first else second
    else if t.seat_id == first.id
    then second
    else first

module _ (session : ℕ) (first second : DebateSeatEntity) (db : Db)
    (pair : IsPair first second) where
  -- At the first turn the seat of order 1 speaks, the seats being two with different ids.
  determine_expected_seat-opening :
      (n : ℕ)
      → leb n 1 ≡ true
      → (determine_expected_seat session (first ∷ second ∷ []) n db).0 ≡ ok first
  unfolding determine_expected_seat find_one
  determine_expected_seat-opening n h = ground (arith, pair.first_order)

  -- Later on, where the previous turn is stored and belongs to one of the two seats, whose ids
  -- differ, the other seat speaks after a turn that was not missed, and the same seat again after a
  -- turn that was missed.
  determine_expected_seat-next_speaker :
      (n : ℕ) (previous : DebateTurnEntity)
      → leb n 1 ≡ false
      → find_turn session (n - 1) db ≡ some previous
      → (previous.seat_id ≡ first.id) ⊎ (previous.seat_id ≡ second.id)
      → (determine_expected_seat session (first ∷ second ∷ []) n db).0
        ≡ ok (next_speaker first second previous)
  unfolding determine_expected_seat seat_after get_opposite_seat find_seat find_one
  determine_expected_seat-next_speaker n previous h e own = elim own [
    | inl a ↦ ground (arith, pair.distinct)
    | inr b ↦ ground (arith, pair.distinct)
  ]
