-- ===== src/Deadline.antt =====
-- deadline.go: the read or write deadline of one end of a connection. Instant 0 is the zero time,
-- and the channel `gen` is the count of its replacements.
pub mod Expiry
use netchaos.Base.{
  ℕ, suc, Bool, true, false, ◌&&◌, ◌||◌, not, Option, none, some, leb, ◌==◌, if◌then◌else◌,
}
use netchaos.Pipe.State.{fire_at}

pub record Deadline : Type 0 where
  pub t : ℕ
  pub timer : Option ℕ
  pub gen : ℕ

unfoldable pub new_deadline : Deadline
new_deadline = record { t = 0; timer = none; gen = 0 }

unfoldable pub expired : ℕ → Deadline → Bool
expired now d = not (d.t == 0) && leb d.t now

unfoldable pub bump : Deadline → Deadline
bump d = record d { gen = suc d.gen }

unfoldable pub set : ℕ → ℕ → Deadline → Deadline
unfolding bump fire_at
set now t d =
    let cleared = bump (record d { t = t; timer = none }) in
    if t == 0 || leb t now then cleared else record cleared { timer = some (fire_at now t) }

-- The callback of the timer.
unfoldable pub fire : Deadline → Deadline
unfolding bump
fire d = bump d

unfoldable pub stop : Deadline → Deadline
stop d = record d { timer = none }
