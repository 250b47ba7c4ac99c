-- ===== src/Auth/Moves.antt =====
-- Requests on e-mail codes that overlap, as a step relation: a request looks a code up, and later
-- judges a guess by its copy or consumes it, whatever other requests wrote in between.
use agentschat.Prelude.{ℕ, ◌≡◌, Bool, true, List, ◌∷◌, some, arith}
use agentschat.Prelude.Every.{every}
use agentschat.Text.{Text}
use agentschat.Auth.Store.{AuthEmailCodeEntity, AuthDb, Refusal, Platform}
use agentschat.Auth.Codes.{
  CodeKey, find_active_email_code, consume_email_code, judge_code, create_and_send_email_code,
}
use agentschat.Auth.Limit.{
  within_limit, all_within, judge_code-Keeps, consume-Keeps, create_and_send-Keeps,
  find_active-within,
}

-- The store, and the copies of codes that requests under way hold.
pub record Underway : Type 0 where
  pub db : AuthDb
  pub held : List AuthEmailCodeEntity

-- A copy that is held.
pub data Held : AuthEmailCodeEntity → List AuthEmailCodeEntity → Type 0 where
  first : {c : AuthEmailCodeEntity} {cs : List AuthEmailCodeEntity} → Held c (c ∷ cs)
  after : {c d : AuthEmailCodeEntity} {cs : List AuthEmailCodeEntity} → Held c cs → Held c (d ∷ cs)

module _ (pf : Platform) where
  pub data Move : Underway → Underway → Type 0 where
    look_up :
        (now : ℕ) (key : CodeKey) (c : AuthEmailCodeEntity) (s t : Underway)
        → find_active_email_code now key s.db ≡ some c
        → t ≡ record { db = s.db; held = c ∷ s.held }
        → Move s t
    judge :
        (now : ℕ) (key : CodeKey) (submitted : Text) (x : Refusal) (c : AuthEmailCodeEntity)
        (s t : Underway)
        → Held c s.held
        → t ≡ record { db = (judge_code pf now key submitted x c s.db).1; held = s.held }
        → Move s t
    consume :
        (now : ℕ) (c : AuthEmailCodeEntity) (s t : Underway)
        → Held c s.held
        → t ≡ record { db = (consume_email_code now c s.db).1; held = s.held }
        → Move s t
    send :
        (now : ℕ) (key : CodeKey) (ttl draw : ℕ) (delivered : Bool) (s t : Underway)
        → t ≡ record {
          db = (create_and_send_email_code pf now key ttl draw delivered s.db).1;
          held = s.held;
        }
        → Move s t

  pub data Moves : Underway → Underway → Type 0 where
    done : {s : Underway} → Moves s s
    step : {s t u : Underway} → Move s t → Moves t u → Moves s u

unfoldable pub IsWithinLimit : Underway → Type 0
IsWithinLimit s = (all_within s.db ≡ true) × (every within_limit s.held ≡ true)

Held-within_limit :
    {c : AuthEmailCodeEntity} {cs : List AuthEmailCodeEntity}
    → Held c cs
    → every within_limit cs ≡ true
    → within_limit c ≡ true
unfolding every
Held-within_limit Held.first h = ground arith
Held-within_limit (Held.after m) h = Held-within_limit m (ground arith)

Move-IsWithinLimit :
    (pf : Platform) {s t : Underway} → Move pf s t → IsWithinLimit s → IsWithinLimit t
unfolding IsWithinLimit every
Move-IsWithinLimit pf (Move.look_up now key c s t found e) (w, h) =
    rw e (w, ground (arith, find_active-within now key s.db c w found, h))
Move-IsWithinLimit pf (Move.judge now key submitted x c s t m e) (w, h) =
    rw e ((judge_code-Keeps pf now key submitted x c (Held-within_limit m h)).at s.db w, h)
Move-IsWithinLimit pf (Move.consume now c s t m e) (w, h) =
    rw e ((consume-Keeps now c (Held-within_limit m h)).at s.db w, h)
Move-IsWithinLimit pf (Move.send now key ttl draw delivered s t e) (w, h) =
    rw e ((create_and_send-Keeps pf now key ttl draw delivered).at s.db w, h)

-- Whatever look-ups, guesses, consumptions and new codes follow one another, those by copies that are
-- out of date included, no code has more than five attempts in its row, and a code with five is
-- consumed, if that holds at the start of the rows and of the copies held.
pub Moves-IsWithinLimit :
    (pf : Platform) {s t : Underway} → Moves pf s t → IsWithinLimit s → IsWithinLimit t
Moves-IsWithinLimit pf Moves.done h = h
Moves-IsWithinLimit pf (Moves.step m ms) h = Moves-IsWithinLimit pf ms (Move-IsWithinLimit pf m h)
