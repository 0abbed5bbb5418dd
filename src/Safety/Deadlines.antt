-- ===== src/Safety/Deadlines.antt =====
-- The event loop's wake-ups (rust/src/supervisor/mod.rs, `next_deadline`).
use open_code_server.Base.{ℕ, ◌⊎◌, ◌≤◌, ◌<◌, Option, none, some, arith}
use open_code_server.Supervisor.State.{Supervisor}
use open_code_server.Supervisor.Capabilities.{consider, consider_optional, next_deadline}

-- No deadline, or one that lies ahead.
abbrev pub Ahead : ℕ → Option ℕ → Type 0
Ahead at none = Unit
Ahead at (some deadline) = at < deadline

-- A deadline not later than the instant.
abbrev pub Wakes : ℕ → Option ℕ → Type 0
Wakes instant none = ⊥
Wakes instant (some deadline) = deadline ≤ instant

consider-Ahead :
    (at : ℕ) (earliest : Option ℕ) (instant : Option ℕ)
    → Ahead at earliest
    → Ahead at (consider_optional at earliest instant)
unfolding consider_optional consider
consider-Ahead at earliest none h = h
consider-Ahead at none (some i) h = ground arith
consider-Ahead at (some e) (some i) h = ground arith

-- An instant that lies ahead is not slept past.
unfoldable pub Covered : ℕ → Option ℕ → Option ℕ → Type 0
Covered at none deadline = Unit
Covered at (some i) deadline = (i ≤ at) ⊎ Wakes i deadline

-- The loop never waits for an instant that has passed: a deadline, where there is one, lies strictly
-- ahead of the present, so the loop cannot spin.
pub next_deadline-Ahead : (s : Supervisor) (at : ℕ) → Ahead at (next_deadline s at)
unfolding next_deadline
next_deadline-Ahead s at = consider-Ahead at _ _ (
    consider-Ahead at _ _ (
      consider-Ahead at _ _ (
        consider-Ahead at _ _ (
          consider-Ahead at _ _ (
            consider-Ahead at _ _ (
              consider-Ahead at _ _
                (consider-Ahead at _ _ (consider-Ahead at _ _ (consider-Ahead at _ _ (tt))))))))))
