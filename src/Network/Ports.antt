-- ===== src/Network/Ports.antt =====
-- netchaos.go: the ports that Listen gives out.
use netchaos.Base.{
  ℕ, zero, suc, ◌+◌, ◌-◌, ◌≤◌, ◌<◌, ◌≡◌, ◌≢◌, sym, ap, ◌∙◌, true, false, ◌&&◌, Option, none, some,
  List, [], ◌∷◌, ltb, leb, ◌==◌, if◌then◌else◌, arith, if_cases,
}
use netchaos.Peers.{Str, eq_str}
use netchaos.Addr.{listen_port_base, max_port, is_some}
use netchaos.Network.{Registered}

-- `n.listeners[peer][port]`, nil for `none`.
unfoldable pub socket_at : Str → ℕ → List Registered → Option ℕ
socket_at peer port [] = none
socket_at peer port (r ∷ rs) =
    let rest = socket_at peer port rs in
    if eq_str r.peer peer && (r.port == port) then some r.socket else rest

-- The counter after a port.
unfoldable pub following_port : ℕ → ℕ
following_port next = if ltb max_port (suc next) then listen_port_base else suc next

-- The loop of Listen, for the attempts that are left: the port it ends with, and the counter.
unfoldable pub search_port : ℕ → List Registered → Str → ℕ → ℕ → ℕ × ℕ
unfolding following_port
search_port zero ls peer port next = (port, next)
search_port (suc attempts) ls peer port next =
    let again = search_port attempts ls peer next (following_port next) in
    if is_some (socket_at peer next ls) then again else (next, following_port next)

abbrev pub InRange : ℕ → Type 0
InRange port = (listen_port_base ≤ port) × (port ≤ max_port)

abbrev pub Unused : List Registered → Str → ℕ → Type 0
Unused ls peer port = is_some (socket_at peer port ls) ≡ false

following_port-InRange : (next : ℕ) → InRange next → InRange (following_port next)
unfolding following_port
following_port-InRange next h =
    if_cases InRange (ltb max_port (suc next)) _ _ (λ _. (omega arith, omega arith))
      (λ e. (omega (arith, h), ground arith))

-- How far the counter is from a port.
unfoldable distance : ℕ → ℕ → ℕ
distance next port = if leb next port then port - next else port + 57536 - next

nearer :
    (next port d : ℕ)
    → InRange next
    → InRange port
    → port ≢ next
    → distance next port < suc d
    → distance (following_port next) port < d
unfolding distance following_port
nearer next port d h k differ near = ground arith

-- What a search ends with: an unused port of the range.
abbrev pub Found : List Registered → Str → ℕ × ℕ → Type 0
Found ls peer r = Unused ls peer r.0 × InRange r.0 × InRange r.1

search_port-Found :
    (attempts : ℕ) (ls : List Registered) (peer : Str) (port next free : ℕ)
    → InRange next
    → InRange free
    → Unused ls peer free
    → distance next free < attempts
    → Found ls peer (search_port attempts ls peer port next)
unfolding search_port
search_port-Found zero ls peer port next free h k u near = absurd (omega arith)
search_port-Found (suc attempts) ls peer port next free h k u near =
    if_cases (Found ls peer) (is_some (socket_at peer next ls)) _ _
      (λ used.
        search_port-Found attempts ls peer next (following_port next) free
          (following_port-InRange next h) k u
          (nearer next free attempts h k (λ same. differ same used) near))
      (λ e. (e, h, following_port-InRange next h))
  where
    differ : free ≡ next → is_some (socket_at peer next ls) ≡ true → ⊥
    differ same used =
        let both : true ≡ false =
          sym used ∙ ap (λ q. is_some (socket_at peer q ls)) (sym same) ∙ u in
        cc

pub search_port-InRange :
    (attempts : ℕ) (ls : List Registered) (peer : Str) (port next : ℕ)
    → InRange next
    → InRange (search_port attempts ls peer port next).1
unfolding search_port
search_port-InRange zero ls peer port next h = h
search_port-InRange (suc attempts) ls peer port next h =
    if_cases (λ (r : ℕ × ℕ). InRange r.1) (is_some (socket_at peer next ls)) _ _
      (λ _.
        search_port-InRange attempts ls peer next (following_port next)
          (following_port-InRange next h))
      (λ _. following_port-InRange next h)

within : (next port : ℕ) → InRange next → InRange port → distance next port < 57536
unfolding distance
within next port h k = ground arith

-- The search that Listen makes ends with an unused port, if there is one.
pub search_port-some :
    (ls : List Registered) (peer : Str) (port next free : ℕ)
    → InRange next
    → InRange free
    → Unused ls peer free
    → Found ls peer (search_port 57536 ls peer port next)
search_port-some ls peer port next free h k u =
    search_port-Found 57536 ls peer port next free h k u (within next free h k)
