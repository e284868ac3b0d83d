-- ===== src/Network/Registry.antt =====
-- netchaos.go: which listener is registered at an address, whatever Listens, Closes and dials
-- interleave.
use netchaos.Base.{
  ℕ, zero, suc, ◌≡◌, ◌⊎◌, Bool, true, false, ◌&&◌, none, some, List, [], ◌∷◌, get_elem?, ◌==◌,
  if◌then◌else◌, arith,
}
use netchaos.Peers.{Str, eq_str}
use netchaos.Peers.Pairs.{eq_str_iff}
use netchaos.Network.{Socket, Registered, Network}
use netchaos.Network.Ports.{socket_at}
use netchaos.Network.Listening.{delete_entry, set_socket}

pub get_elem?-set_socket :
    (xs : List Socket) (s t : ℕ) (k old : Socket)
    → get_elem? xs s ≡ some old
    → get_elem? (set_socket s k xs) t ≡ (if s == t then some k else get_elem? xs t)
unfolding set_socket
get_elem?-set_socket [] s t k old e = cc
get_elem?-set_socket (x ∷ xs) zero zero k old e = ground arith
get_elem?-set_socket (x ∷ xs) zero (suc t) k old e = ground arith
get_elem?-set_socket (x ∷ xs) (suc s) zero k old e = ground arith
get_elem?-set_socket (x ∷ xs) (suc s) (suc t) k old e =
    ground (arith, get_elem?-set_socket xs s t k old e)

-- Whether two addresses are one.
abbrev pub same_at : Str → ℕ → Str → ℕ → Bool
same_at p q peer port = eq_str p peer && (q == port)

pub same_at_iff :
    (p : Str) (q : ℕ) (peer : Str) (port : ℕ)
    → same_at p q peer port ≡ true
    → (p ≡ peer) × (q ≡ port)
same_at_iff p q peer port e = ground (arith, eq_str_iff p peer)

pub same_at_refl : (p : Str) (q : ℕ) → same_at p q p q ≡ true
same_at_refl p q = ground (arith, eq_str_iff p p)

pub socket_at-delete_entry :
    (p : Str) (q : ℕ) (peer : Str) (port : ℕ) (ls : List Registered)
    → socket_at peer port (delete_entry p q ls)
      ≡ (if same_at p q peer port then none else socket_at peer port ls)
unfolding socket_at delete_entry
socket_at-delete_entry p q peer port [] = ground arith
socket_at-delete_entry p q peer port (r ∷ rs) = ground (
  arith,
  socket_at-delete_entry p q peer port rs,
  eq_str_iff r.peer p,
  eq_str_iff r.peer peer,
  eq_str_iff p peer,
)

-- A listener that is open, or whose Close has yet to deregister it.
abbrev pub Active : Socket → Type 0
Active k = (k.queue.closed ≡ false) ⊎ (k.deregistering ≡ true)

-- The listener with a number is active, at that address.
abbrev pub Known : List Socket → Str → ℕ → ℕ → Type 0
Known sockets peer port s =
    (k : Socket) × (get_elem? sockets s ≡ some k) × (k.peer ≡ peer) × (k.port ≡ port) × Active k

pub record RegistryInv (n : Network) : Type 0 where
  pub registered :
      (s : ℕ) (k : Socket)
      → get_elem? n.sockets s ≡ some k
      → Active k
      → socket_at k.peer k.port n.listeners ≡ some s
  pub known :
      (peer : Str) (port s : ℕ)
      → socket_at peer port n.listeners ≡ some s
      → Known n.sockets peer port s
  pub closing :
      (s : ℕ) (k : Socket)
      → get_elem? n.sockets s ≡ some k
      → k.deregistering ≡ true
      → k.queue.closed ≡ true
