-- ===== src/Addr.antt =====
-- addr.go: peers and ports in address strings, and the names that a Network makes up.
--
-- `Addr.Text` has what it uses of Go's net and strconv packages. netip's reader and printer of
-- literals are a parameter, the record `NetIp`.
pub mod Text
pub mod Names
pub mod Splitting
pub mod Errors
use netchaos.Base.{
  ℕ, zero, suc, ◌+◌, ◌-◌, ◌%◌, Bool, true, false, ◌&&◌, ◌||◌, not, Option, none, some, List, [],
  ◌∷◌, ◌++◌, ltb, leb, ◌==◌, if◌then◌else◌, ◌>>=◌, drop,
}
use netchaos.Base.Int.{ℤ, pos, negsuc}
use netchaos.Peers.{Str, eq_str}
use Text.{contains, split_host_port, atoi, decimal}

-- netip.Addr: four bytes, or sixteen bytes and a zone.
pub data Ip : Type 0 where
  v4 : List ℕ → Ip
  v6 : List ℕ → Str → Ip

-- netip.ParseAddr and netip.Addr.String.
pub record NetIp : Type 0 where
  pub parse : Str → Option Ip
  pub text : Ip → Str

abbrev pub mapped_prefix : List ℕ
mapped_prefix = 0 ∷ 0 ∷ 0 ∷ 0 ∷ 0 ∷ 0 ∷ 0 ∷ 0 ∷ 0 ∷ 0 ∷ 255 ∷ 255 ∷ []

abbrev starts : List ℕ → List ℕ → Bool
starts [] ys = true
starts (x ∷ xs) [] = false
starts (x ∷ xs) (y ∷ ys) = (x == y) && starts xs ys

-- netip.Addr.Unmap: an IPv4-mapped IPv6 address becomes the IPv4 address.
unfoldable pub unmap : Ip → Ip
unmap (v4 b) = v4 b
unmap (v6 b zone) = if starts mapped_prefix b then v4 (drop 12 b) else v6 b zone

unfoldable pub parse_literal_ip : NetIp → Str → Option Ip
parse_literal_ip net host = net.parse host >>= λ ip. some (unmap ip)

abbrev pub listen_port_base : ℕ
listen_port_base = 8000

abbrev pub ephemeral_port_base : ℕ
ephemeral_port_base = 32768

abbrev pub max_port : ℕ
max_port = 65535

-- The two texts of the *net.AddrError that splitAddr makes.
pub data Split : Type 0 where
  split : Str → ℕ → Bool → Split
  invalid_address : Split
  invalid_port : Split

abbrev pub is_some {ℓ} : {A : Type ℓ} → Option A → Bool
is_some none = false
is_some (some a) = true

unfoldable pub checked_port : Str → Option ℤ → Split
checked_port host none = invalid_port
checked_port host (some (negsuc n)) = invalid_port
checked_port host (some (pos port)) =
    if ltb max_port port then invalid_port else split host port true

unfoldable pub split_port : Option (Str × Str) → Split
unfolding checked_port eq_str
split_port none = invalid_address
split_port (some (host, port)) =
    if eq_str port [] || eq_str port (b'0' ∷ [])
    then split host 0 false
    else checked_port host (atoi port)

unfoldable pub split_addr : NetIp → Str → Split
unfolding split_port parse_literal_ip
split_addr net s =
    if is_some (parse_literal_ip net s)
    then split s 0 false
    else if not (contains b':' s)
    then split s 0 false
    else split_port (split_host_port s)

abbrev split_host : Str → Split → Str
split_host s (split host port explicit) = host
split_host s invalid_address = s
split_host s invalid_port = s

unfoldable pub peer_name : NetIp → Str → Str
peer_name net dial_addr = split_host dial_addr (split_addr net dial_addr)

unfoldable pub ephemeral_port : ℕ → ℕ
ephemeral_port ordinal = ephemeral_port_base + ordinal % (max_port + 1 - ephemeral_port_base)

-- "ephemeral-" and "wildcard-"
abbrev pub ephemeral_prefix : Str
ephemeral_prefix = b'e' ∷ b'p' ∷ b'h' ∷ b'e' ∷ b'm' ∷ b'e' ∷ b'r' ∷ b'a' ∷ b'l' ∷ b'-' ∷ []

abbrev pub wildcard_prefix : Str
wildcard_prefix = b'w' ∷ b'i' ∷ b'l' ∷ b'd' ∷ b'c' ∷ b'a' ∷ b'r' ∷ b'd' ∷ b'-' ∷ []

unfoldable pub ephemeral_peer_name : ℕ → Str
ephemeral_peer_name ordinal = ephemeral_prefix ++ decimal ordinal

unfoldable pub wildcard_peer_name : ℕ → Str
wildcard_peer_name ordinal = wildcard_prefix ++ decimal ordinal

-- validateNetwork's answers, and the networks by name.
pub data NetworkName : Type 0 where
  tcp tcp4 tcp6 udp udp4 udp6 : NetworkName
  other : Str → NetworkName

unfoldable pub validate_network : NetworkName → Bool
validate_network tcp = true
validate_network tcp4 = true
validate_network tcp6 = true
validate_network udp = false
validate_network udp4 = false
validate_network udp6 = false
validate_network (other s) = false
