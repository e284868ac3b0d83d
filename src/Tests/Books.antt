-- ===== src/Tests/Books.antt =====
-- The properties of the address book at concrete inputs.
use netchaos.Base.{◌≡◌, refl, Option, none, some, [], ◌∷◌, ◌==◌, if◌then◌else◌, arith, inl}
use netchaos.Peers.{Str, eq_str}
use netchaos.Addr.{Ip, v4, v6, NetIp, parse_literal_ip, unmap}
use netchaos.Book.{
  Book, new_book, owner_of, ip_of, own, canonical_peer, assigned, synthetic4, candidate,
  advance_counter, assign, take_candidate, allocate, name_ip, literal_or_name_ip, peer_ip,
}
use netchaos.Book.Owners.{BookReach, here, then_step, assigning, new_book-BookReach}
use netchaos.Listener.{new_listener}
use netchaos.Dial.{Dialing, establish}
use netchaos.Dial.Outcomes.{Outcome, establish_lem}

-- A text of an IPv4 address is its bytes after a 4.
abbrev pub read_tag : Str → Option Ip
read_tag [] = none
read_tag (x ∷ xs) = if x == 4 then some (v4 xs) else none

abbrev pub write_tag : Ip → Str
write_tag (v4 bytes) = 4 ∷ bytes
write_tag (v6 bytes zone) = 6 ∷ bytes

abbrev pub tagged : NetIp
tagged = record { parse = read_tag; text = write_tag }

abbrev pub alice : Str
alice = b'a' ∷ []

abbrev pub first_ip : Ip
first_ip = v4 (198 ∷ 18 ∷ 0 ∷ 0 ∷ [])

abbrev after : Book
after = record {
  ip_owners = (record { key = 4 ∷ 198 ∷ 18 ∷ 0 ∷ 0 ∷ []; owner = alice }) ∷ [];
  peer_ips = (record { peer = alice; family = 4; ip = first_ip }) ∷ [];
  next_ipv4 = 1;
  next_ipv6 = 0;
}

given : peer_ip 1 tagged alice 4 new_book ≡ some (assigned first_ip, after)
unfolding peer_ip literal_or_name_ip name_ip ip_of allocate take_candidate candidate advance_counter
    owner_of assign own synthetic4 new_book parse_literal_ip
given = refl

reached : BookReach tagged new_book after
unfolding parse_literal_ip
reached = then_step here (assigning 1 alice 4 new_book after (assigned first_ip) (inl refl) given)

new_book-BookReach_example :
    (alice ≡ alice) × (canonical_peer tagged (4 ∷ 198 ∷ 18 ∷ 0 ∷ 0 ∷ []) after ≡ (alice, after))
unfolding ip_of eq_str parse_literal_ip unmap
new_book-BookReach_example =
    new_book-BookReach tagged after alice alice 4 4 first_ip first_ip reached refl refl refl refl

-- A dialer that is named by an IPv4 literal, at an IPv6 listener with a backlog of 1.
abbrev literal_name : Str
literal_name = 4 ∷ 9 ∷ 9 ∷ 9 ∷ 9 ∷ []

abbrev idle : Dialing
idle = record { listener = new_listener 1; next_ordinal = 0; book = after }

establish_lem_example :
    Outcome 5 idle (establish 18446744073709551616 tagged (some literal_name) 6 5 idle)
establish_lem_example =
    establish_lem 18446744073709551616 tagged (some literal_name) 6 5 idle
      (omega arith, omega arith) (omega arith)
