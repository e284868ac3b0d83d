-- ===== src/Network/Changes.antt =====
-- netchaos.go: what a Listen does to the listeners of the Network.
use netchaos.Base.{
  ℕ, ◌≡◌, refl, ◌⊎◌, inl, inr, Bool, true, false, Option, some, [], ◌∷◌, ◌++◌, length, if_cases,
  along_some, >>=-eq-some,
}
use netchaos.Peers.{Str, eq_str}
use netchaos.Addr.{
  NetIp, parse_literal_ip, is_some, Split, split, invalid_address, invalid_port, split_addr,
  NetworkName, validate_network,
}
use netchaos.Book.{
  Book, IpResult, assigned, family_mismatch, space_exhausted, peer_ip, address_family,
}
use netchaos.Listener.{new_listener}
use netchaos.Network.{Socket, Network}
use netchaos.Network.Ports.{socket_at, Unused}
use netchaos.Network.Listening.{
  ListenResult, unknown_network, bad_address, bad_port, address_in_use, new_socket, register,
  listen_port, choose_port, listen_canonical, taken_literal, listen_peer, named_peer, listen_split,
  listen,
}

-- What a Listen does to the listeners: nothing, or one more, at an address that was unused.
abbrev pub Added : Network → Network → Socket → Type 0
Added n m k =
    (m.sockets ≡ n.sockets ++ k ∷ [])
    × (m.listeners
        ≡ record { peer = k.peer; port = k.port; socket = length n.sockets } ∷ n.listeners)
    × Unused n.listeners k.peer k.port
    × (k.queue.closed ≡ false)
    × (k.deregistering ≡ false)

abbrev pub Same : Network → Network → Type 0
Same n m = (m.sockets ≡ n.sockets) × (m.listeners ≡ n.listeners)

abbrev pub Change : Network → Network → Type 0
Change n m = Same n m ⊎ ((k : Socket) × Added n m k)

abbrev pub Changed : Network → Option (ListenResult × Network) → Type 0
Changed n o = (r : ListenResult) (m : Network) → o ≡ some (r, m) → Change n m

done : (n m : Network) (r : ListenResult) → Change n m → Changed n (some (r, m))
done n m r c q p e = along_some (λ (x : ListenResult × Network). Change n x.1) e c

register-Change :
    (network : NetworkName) (peer : Str) (port : ℕ) (n : Network) (x : IpResult × Book)
    → Unused n.listeners peer port
    → Change n (register network peer port n x).1
unfolding register new_socket new_listener
register-Change network peer port n (assigned ip, book) u =
    inr (new_socket network peer port ip n.listener_backlog, (refl, refl, u, refl, refl))
register-Change network peer port n (family_mismatch, book) u = inl (refl, refl)
register-Change network peer port n (space_exhausted, book) u = inl (refl, refl)

listen_port-Changed :
    (fuel : ℕ) (net : NetIp) (network : NetworkName) (peer : Str) (port : ℕ) (n : Network)
    → Changed n (listen_port fuel net network peer port n)
unfolding listen_port
listen_port-Changed fuel net network peer port n =
    if_cases (Changed n) (is_some (socket_at peer port n.listeners)) _ _
      (λ _. done n n address_in_use (inl (refl, refl)))
      (λ u r m e.
        let (x, _, f) =
          >>=-eq-some (peer_ip fuel net peer (address_family net network peer) n.book)
            (λ x. some (register network peer port n x)) e in
        along_some (λ (x : ListenResult × Network). Change n x.1) f
          (register-Change network peer port n x u))

listen_canonical-Changed :
    (fuel : ℕ) (net : NetIp) (network : NetworkName) (explicit : Bool) (port : ℕ) (x : Str × Book)
    (n : Network)
    → Changed n (listen_canonical fuel net network explicit port x n)
unfolding listen_canonical choose_port
listen_canonical-Changed fuel net network true port x n =
    listen_port-Changed fuel net network x.0 port (record n { book = x.1 })
listen_canonical-Changed fuel net network false port x n =
    listen_port-Changed fuel net network x.0 _ _

listen_peer-Changed :
    (fuel : ℕ) (net : NetIp) (network : NetworkName) (explicit : Bool) (port : ℕ) (peer : Str)
    (n : Network)
    → Changed n (listen_peer fuel net network explicit port (peer, n))
unfolding listen_peer
listen_peer-Changed fuel net network explicit port peer n =
    if_cases (Changed n) (taken_literal net (parse_literal_ip net peer) n.book) _ _
      (λ _. done n n address_in_use (inl (refl, refl)))
      (λ _. listen_canonical-Changed fuel net network explicit port _ n)

listen_split-Changed :
    (fuel : ℕ) (net : NetIp) (network : NetworkName) (s : Split) (n : Network)
    → Changed n (listen_split fuel net network s n)
unfolding listen_split named_peer
listen_split-Changed fuel net network invalid_address n = done n n bad_address (inl (refl, refl))
listen_split-Changed fuel net network invalid_port n = done n n bad_port (inl (refl, refl))
listen_split-Changed fuel net network (split peer port explicit) n =
    if_cases (λ (x : Str × Network). Changed n (listen_peer fuel net network explicit port x))
      (eq_str peer []) _ _ (λ _. listen_peer-Changed fuel net network explicit port _ _)
      (λ _. listen_peer-Changed fuel net network explicit port peer n)

pub listen-Changed :
    (fuel : ℕ) (net : NetIp) (network : NetworkName) (laddr : Str) (n : Network)
    → Changed n (listen fuel net network laddr n)
unfolding listen
listen-Changed fuel net network laddr n =
    if_cases (Changed n) (validate_network network) _ _
      (λ _. listen_split-Changed fuel net network (split_addr net laddr) n)
      (λ _. done n n unknown_network (inl (refl, refl)))
