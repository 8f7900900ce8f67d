-- ===== src/Library/Connectivity.antt =====
-- `check_connectivity` of bridge_library.py: tries to open the agent's page for twenty seconds.
use ros_bridge.Base.{
  ℕ, ◌+◌, ◌≡◌, Bool, true, false, not, List, [], ◌∷◌, if◌then◌else◌, ltb, any, arith, Bool-cases,
  inl, inr,
}

-- What one attempt meets: the page, or an URLError, after which the clock shows a time. Times are
-- in milliseconds.
pub data Attempt : Type 0 where
  opens : Attempt
  fails_at : ℕ → Attempt

-- The agent answers, the process exits, or the attempts that are given have been used up.
pub data Connection : Type 0 where
  available exited undecided : Connection

-- The loop `while time_out > current`.
unfoldable pub try_until : ℕ → ℕ → List Attempt → Connection
try_until time_out current [] = if ltb current time_out then undecided else exited
try_until time_out current (opens ∷ more) = if ltb current time_out then available else exited
try_until time_out current (fails_at t ∷ more) =
    let again = try_until time_out t more in if ltb current time_out then again else exited

abbrev pub patience : ℕ
patience = 20000

unfoldable pub check_connectivity : ℕ → List Attempt → Connection
unfolding try_until
check_connectivity now attempts = try_until (now + patience) now attempts

-- An attempt that opens the page, or that fails when the time is up.
abbrev pub is_last : ℕ → Attempt → Bool
is_last time_out opens = true
is_last time_out (fails_at t) = not (ltb t time_out)

abbrev pub is_decided : Connection → Bool
is_decided available = true
is_decided exited = true
is_decided undecided = false

try_until_late :
    (time_out current : ℕ) (attempts : List Attempt)
    → ltb current time_out ≡ false
    → try_until time_out current attempts ≡ exited
unfolding try_until
try_until_late time_out current [] h = ground arith
try_until_late time_out current (opens ∷ more) h = ground arith
try_until_late time_out current (fails_at t ∷ more) h = ground arith

try_until-ends :
    (time_out current : ℕ) (attempts : List Attempt)
    → any (is_last time_out) attempts ≡ true
    → is_decided (try_until time_out current attempts) ≡ true
unfolding try_until
try_until-ends time_out current [] h = ground arith
try_until-ends time_out current (opens ∷ more) h = ground arith
try_until-ends time_out current (fails_at t ∷ more) h = elim (Bool-cases (ltb t time_out)) [
  | inl e ↦ ground (arith, try_until-ends time_out t more)
  | inr e ↦ ground (arith, try_until_late time_out t more e)
]

-- The loop ends: once an attempt has opened the page, or has failed at or after twenty seconds, the
-- agent is available or the process has exited.
check_connectivity-ends :
    (now : ℕ) (attempts : List Attempt)
    → any (is_last (now + patience)) attempts ≡ true
    → is_decided (check_connectivity now attempts) ≡ true
unfolding check_connectivity
check_connectivity-ends now attempts h = try_until-ends (now + patience) now attempts h
