-- ===== src/Dial.antt =====
-- DialContext of netchaos.go, from the claim of the slot to the fill, for a dial that nothing
-- comes in between of. The connection that it makes is known by its number.
pub mod Outcomes
pub mod Lookup
pub mod Choice
pub mod Whole
pub mod Ordinals
pub mod Waiting
pub mod Connection
pub mod Foreseen
pub mod Parties
pub mod World
pub mod Dialers
use netchaos.Base.{
  ℕ, suc, ◌+◌, ◌-◌, ◌%◌, Bool, true, false, ◌||◌, Option, none, some, List, [], ◌∷◌, if◌then◌else◌,
  ◌>>=◌,
}
use netchaos.Rand.{word}
use netchaos.Peers.{Str, eq_str}
use netchaos.Addr.{Ip, NetIp, ephemeral_peer_name}
use netchaos.Book.{Book, IpResult, assigned, family_mismatch, space_exhausted, peer_ip}
use netchaos.Listener.{
  Listener, ReserveResult, slot_reserved, connection_refused, backlog_full, reserve, fill,
}

-- What of the Network and of the listener the dial changes.
pub record Dialing : Type 0 where
  pub listener : Listener
  pub next_ordinal : ℕ
  pub book : Book

-- The connection with its ordinal, or the error.
pub data DialResult : Type 0 where
  established : ℕ → DialResult
  refused : DialResult
  full : DialResult
  no_address : DialResult

-- The dialer's canonical name, or the one made up for it.
unfoldable pub local_name : Option Str → ℕ → Str
local_name none ordinal = ephemeral_peer_name ordinal
local_name (some name) ordinal = if eq_str name [] then ephemeral_peer_name ordinal else name

unfoldable pub hand_over : ℕ → ℕ → Dialing → IpResult × Book → DialResult × Dialing
hand_over c ordinal d (assigned ip, b) =
    (established ordinal, record d { book = b; listener = (fill c d.listener).1 })
hand_over c ordinal d (family_mismatch, b) = (no_address, record d { book = b })
hand_over c ordinal d (space_exhausted, b) = (no_address, record d { book = b })

-- Past the claim: the ordinal is taken, then the dialer's address, then the slot is filled.
unfoldable pub establish_reserved :
    ℕ
    → NetIp
    → Option Str
    → ℕ
    → ℕ
    → Dialing
    → ReserveResult × Listener
    → Option (DialResult × Dialing)
establish_reserved fuel net name family c d (connection_refused, l) =
    some (refused, record d { listener = l })
establish_reserved fuel net name family c d (backlog_full, l) =
    some (full, record d { listener = l })
establish_reserved fuel net name family c d (slot_reserved, l) =
    let ordinal = d.next_ordinal in
    peer_ip fuel net (local_name name ordinal) family d.book >>= λ r.
    some (hand_over c ordinal (record d { listener = l; next_ordinal = suc ordinal % word }) r)

unfoldable pub establish : ℕ → NetIp → Option Str → ℕ → ℕ → Dialing → Option (DialResult × Dialing)
establish fuel net name family c d =
    establish_reserved fuel net name family c d (reserve d.listener)
