-- ===== src/Dial/Dialers.antt =====
-- DialerFor and WithDialTimeout of netchaos.go. An option is the timeout that it holds; `none` in a
-- list of options is Go's nil.
use netchaos.Base.{
  ℕ, ◌+◌, ◌≡◌, refl, Bool, false, Option, none, some, List, [], ◌∷◌, if◌then◌else◌, ltb, leb, ap,
  arith, if_cases,
}
use netchaos.Base.Int.{ℤ, pos, le_ℤ, pos_part}
use netchaos.Peers.{Str}
use netchaos.Addr.{NetIp, NetworkName}
use netchaos.Partition.{Called, returned, panics}
use netchaos.Dial.Whole.{DialAnswer}
use netchaos.Dial.World.{World, dial_world}

unfoldable pub with_dial_timeout : ℤ → Called ℕ
with_dial_timeout d = if le_ℤ d (pos 0) then panics else returned (pos_part d)

-- The loop over the options, with the timeout of the dialerConfig.
unfoldable pub apply_dialer_options : List (Option ℕ) → ℕ → Called ℕ
apply_dialer_options [] timeout = returned timeout
apply_dialer_options (none ∷ opts) timeout = panics
apply_dialer_options (some d ∷ opts) timeout = apply_dialer_options opts d

-- The context of a dial: the name that it holds, and the instant at which it is done.
pub record DialContextValue : Type 0 where
  pub name : Option Str
  pub deadline : Option ℕ

unfoldable pub dialer_context : Str → ℕ → ℕ → DialContextValue
dialer_context name timeout now = record {
  name = some name;
  deadline = if ltb 0 timeout then some (now + timeout) else none;
}

unfoldable pub context_done : ℕ → DialContextValue → Bool
context_done now c = elim c.deadline [ none ↦ false | some t ↦ leb t now ]

-- A call of the function that DialerFor returned, at the instant `now`.
module _ (sum256 : List ℕ → List ℕ) (chacha8 : List ℕ → ℕ → ℕ) where
  unfoldable pub dial_as :
      Str → ℕ → ℕ → ℕ → NetIp → NetworkName → Str → List ℕ → World → Option (DialAnswer × World)
  unfolding dialer_context context_done dial_world
  dial_as name timeout now fuel net network addr range w =
      let c = dialer_context name timeout now in
      dial_world sum256 chacha8 fuel net (context_done now c) c.name network addr range w

  not_done :
      (name : Str) (timeout now : ℕ) → context_done now (dialer_context name timeout now) ≡ false
  unfolding context_done dialer_context
  not_done name timeout now =
      if_cases (λ (o : Option ℕ). (elim o [ none ↦ false | some t ↦ leb t now ]) ≡ false)
        (ltb 0 timeout) _ _ (λ e. ground arith) (λ _. refl)

  -- Each call of a DialerFor function starts with a context that is not done, whatever the timeout
  -- and however late the call: it dials as a named dialer without a timeout does.
  pub dial_as_lem :
      (name : Str) (timeout now fuel : ℕ) (net : NetIp) (network : NetworkName) (addr : Str)
      (range : List ℕ) (w : World)
      → dial_as name timeout now fuel net network addr range w
        ≡ dial_world sum256 chacha8 fuel net false (some name) network addr range w
  unfolding dial_as dialer_context
  dial_as_lem name timeout now fuel net network addr range w =
      ap (λ done. dial_world sum256 chacha8 fuel net done (some name) network addr range w)
        (not_done name timeout now)
