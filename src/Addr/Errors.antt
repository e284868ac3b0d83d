-- ===== src/Addr/Errors.antt =====
-- addr.go: the address that an error of Listen or DialContext names, and its text.
use netchaos.Base.{
  ℕ, ◌≤◌, ◌≡◌, refl, ap, ◌∙◌, false, Option, none, some, [], ◌∷◌, ◌++◌, if◌then◌else◌, if_skipped,
}
use netchaos.Peers.{Str, eq_str}
use netchaos.Addr.{NetIp, Split, split, invalid_address, invalid_port, split_addr, max_port}
use netchaos.Addr.Text.{contains, decimal}
use netchaos.Addr.Splitting.{Plain, split_addr-join}

-- An addr without an IP. Its network is the one the caller named.
pub record ErrAddr : Type 0 where
  pub peer : Str
  pub port : ℕ

-- net.JoinHostPort
unfoldable pub join_host_port : Str → Str → Str
join_host_port host port =
    if contains b':' host then b'[' ∷ host ++ (b']' ∷ b':' ∷ port) else host ++ b':' ∷ port

-- addr.String where the IP is nil.
unfoldable pub addr_string : ErrAddr → Str
unfolding join_host_port
addr_string a = join_host_port a.peer (decimal a.port)

unfoldable pub split_err_addr : Str → Split → ErrAddr
split_err_addr s invalid_address = record { peer = s; port = 0 }
split_err_addr s invalid_port = record { peer = s; port = 0 }
split_err_addr s (split host port explicit) = record { peer = host; port = port }

-- errAddr; `none` is the nil net.Addr.
unfoldable pub err_addr : NetIp → Str → Option ErrAddr
unfolding split_err_addr
err_addr net s = if eq_str s [] then none else some (split_err_addr s (split_addr net s))

joined_nonempty : (host rest : Str) (c : ℕ) → eq_str (host ++ c ∷ rest) [] ≡ false
unfolding eq_str
joined_nonempty [] rest c = refl
joined_nonempty (x ∷ xs) rest c = refl

-- An error about an address of the form host:port, with a host without colons and brackets and a
-- port from 1 to 65535, names an address whose text is the one that the caller wrote.
pub err_addr-join :
    (net : NetIp) (host : Str) (port : ℕ)
    → Plain host
    → 1 ≤ port
    → port ≤ max_port
    → net.parse (host ++ b':' ∷ decimal port) ≡ none
    → (a : ErrAddr) × (err_addr net (host ++ b':' ∷ decimal port) ≡ some a)
      × (addr_string a ≡ host ++ b':' ∷ decimal port)
unfolding err_addr split_err_addr addr_string
err_addr-join net host port h l k e = (
  record { peer = host; port = port },
  if_skipped _ (joined_nonempty host (decimal port) b':') none _
      ∙ ap (λ s. some (split_err_addr (host ++ b':' ∷ decimal port) s))
          (split_addr-join net host port h l k e).0,
  if_skipped (contains b':' host) h.0 _ _,
)
