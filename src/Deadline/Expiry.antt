-- ===== src/Deadline/Expiry.antt =====
-- What a deadline promises to the calls that wait on it.
use netchaos.Base.{
  ℕ, ◌+◌, ◌-◌, ◌≤◌, ◌<◌, ◌≡◌, ◌≢◌, ◌⊎◌, ◌↔◌, refl, true, false, none, some, arith, min,
}
use netchaos.Bandwidth.{max_int64}
use netchaos.Deadline.{Deadline, expired, set, fire, stop}

-- Setting a deadline wakes every waiter, and at any later instant it has expired exactly if it was
-- not cleared and its time has come. Unless it is cleared or past, a timer is left that fires then
-- (or, further than the longest Duration away, before), and the deadline is not expired yet.
pub set_lem :
    (now t later : ℕ) (d : Deadline)
    → ((expired later (set now t d) ≡ true) ↔ ((t ≢ 0) × (t ≤ later)))
      × (d.gen < (set now t d).gen)
      × (((t ≡ 0) × ((set now t d).timer ≡ none))
          ⊎ ((t ≤ now) × ((set now t d).timer ≡ none))
          ⊎ ((expired now (set now t d) ≡ false)
              × ((set now t d).timer ≡ some (now + min (t - now) max_int64))))
unfolding set expired
set_lem now t later d = (ground arith, ground arith, ground arith)

-- Firing and stopping leave the deadline's time, and so what it says of every instant.
pub expired_kept :
    (now : ℕ) (d : Deadline)
    → (expired now (fire d) ≡ expired now d)
      × (expired now (stop d) ≡ expired now d)
      × (d.gen < (fire d).gen)
unfolding expired fire stop
expired_kept now d = (refl, refl, omega arith)
