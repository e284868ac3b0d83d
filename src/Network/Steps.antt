-- ===== src/Network/Steps.antt =====
-- netchaos.go and listener.go: Listens, Closes and queue operations in any order.
use netchaos.Base.{
  ℕ, ◌≡◌, refl, sym, ap, ◌∙◌, inl, inr, Bool, true, false, Option, none, some, List, [], ◌∷◌,
  get_elem?, ◌==◌, arith, if_cases, Bool-cases, subst, ==_iff,
}
use mathlib.Core.Option.{some-injective}
use netchaos.Peers.{Str}
use netchaos.Addr.{NetIp, is_some, NetworkName}
use netchaos.Listener.{
  Listener, reserve, fill, accept, accept_from, mark_closed, drain_one, drain_from,
}
use netchaos.Network.{Socket, Network}
use netchaos.Network.Ports.{socket_at}
use netchaos.Network.Listening.{ListenResult, listen, put_socket, start_close, finish_close}
use netchaos.Network.Changes.{listen-Changed}
use netchaos.Network.Registry.{Known, RegistryInv, same_at, same_at_iff, same_at_refl}
use netchaos.Network.Closing.{put_socket-RegistryInv, finish_close-RegistryInv}
use netchaos.Partition.{Called, returned, panics}
use netchaos.Options.{PartitionPair, NetworkConfig, NetworkOption, configure}
use netchaos.Network.{static_partition, static_partitioned, fresh_network, built, new_network}
use netchaos.Network.Adding.{Same-RegistryInv, Change-RegistryInv}

-- What else happens to a listener's queue.
pub data QueueOp : Listener → Listener → Type 0 where
  reserving : (l : Listener) → QueueOp l (reserve l).1
  filling : (c : ℕ) (l : Listener) → QueueOp l (fill c l).1
  accepting : (first : Bool) (l : Listener) → QueueOp l (accept first l).1
  draining : (l : Listener) → QueueOp l (drain_one l).1

QueueOp-closed : {l m : Listener} → QueueOp l m → m.closed ≡ l.closed
unfolding reserve fill accept accept_from drain_one drain_from
QueueOp-closed (reserving l) = ground arith
QueueOp-closed (filling c l) = ground arith
QueueOp-closed (accepting first l) = from l.incoming
  where
    from : (cs : List ℕ) → (accept_from first l cs).1.closed ≡ l.closed
    from [] = ground arith
    from (c ∷ cs) = ground arith
QueueOp-closed (draining l) = from l.incoming
  where
    from : (cs : List ℕ) → (drain_from l cs).1.closed ≡ l.closed
    from [] = refl
    from (c ∷ cs) = refl

-- The steps of a Network that its listeners can see, and the rest of what it does.
pub data NetworkStep (net : NetIp) : Network → Network → Type 0 where
  listening_at :
      (fuel : ℕ) (network : NetworkName) (laddr : Str) (n m : Network) (r : ListenResult)
      → listen fuel net network laddr n ≡ some (r, m)
      → NetworkStep net n m
  starting_close :
      (s : ℕ) (k : Socket) (n : Network)
      → get_elem? n.sockets s ≡ some k
      → NetworkStep net n (start_close s k n)
  finishing_close :
      (s : ℕ) (k : Socket) (n : Network)
      → get_elem? n.sockets s ≡ some k
      → k.deregistering ≡ true
      → NetworkStep net n (finish_close s k n)
  serving :
      (s : ℕ) (k : Socket) (q : Listener) (n : Network)
      → get_elem? n.sockets s ≡ some k
      → QueueOp k.queue q
      → NetworkStep net n (put_socket s (record k { queue = q }) n)
  elsewhere :
      (n m : Network) → m.sockets ≡ n.sockets → m.listeners ≡ n.listeners → NetworkStep net n m

pub data NetworkReach (net : NetIp) (n : Network) : Network → Type 0 where
  here : NetworkReach net n n
  then_step : {m k : Network} → NetworkReach net n m → NetworkStep net m k → NetworkReach net n k

start_close-RegistryInv :
    (s : ℕ) (k : Socket) (n : Network)
    → get_elem? n.sockets s ≡ some k
    → RegistryInv n
    → RegistryInv (start_close s k n)
unfolding start_close mark_closed
start_close-RegistryInv s k n at v =
    if_cases RegistryInv k.queue.closed _ _ (λ _. v)
      (λ o. put_socket-RegistryInv s k _ n at refl refl (λ _. inl o) (λ _. inr refl) (λ _. refl) v)

serving-RegistryInv :
    (s : ℕ) (k : Socket) (q : Listener) (n : Network)
    → get_elem? n.sockets s ≡ some k
    → q.closed ≡ k.queue.closed
    → RegistryInv n
    → RegistryInv (put_socket s (record k { queue = q }) n)
serving-RegistryInv s k q n at e v =
    put_socket-RegistryInv s k (record k { queue = q }) n at refl refl
      (λ a. elim a [ inl o ↦ inl (sym e ∙ o) | inr d ↦ inr d ])
      (λ a. elim a [ inl o ↦ inl (e ∙ o) | inr d ↦ inr d ]) (λ d. e ∙ v.closing s k at d) v

NetworkStep-RegistryInv :
    {net : NetIp} {n m : Network} → NetworkStep net n m → RegistryInv n → RegistryInv m
NetworkStep-RegistryInv {net} (listening_at fuel network laddr n m r e) v =
    Change-RegistryInv n m (listen-Changed fuel net network laddr n r m e) v
NetworkStep-RegistryInv (starting_close s k n at) v = start_close-RegistryInv s k n at v
NetworkStep-RegistryInv (finishing_close s k n at d) v = finish_close-RegistryInv s k n at d v
NetworkStep-RegistryInv (serving s k q n at op) v =
    serving-RegistryInv s k q n at (QueueOp-closed op) v
NetworkStep-RegistryInv (elsewhere n m sockets listeners) v =
    Same-RegistryInv n m (sockets, listeners) v

NetworkReach-RegistryInv :
    {net : NetIp} {n m : Network} → NetworkReach net n m → RegistryInv n → RegistryInv m
NetworkReach-RegistryInv here v = v
NetworkReach-RegistryInv (then_step r s) v =
    NetworkStep-RegistryInv s (NetworkReach-RegistryInv r v)

abbrev Empty : Network → Type 0
Empty n = (n.sockets ≡ []) × (n.listeners ≡ [])

static_partitioned-Empty :
    (net : NetIp) (ps : List PartitionPair) (n : Network)
    → Empty n
    → Empty (static_partitioned net ps n)
unfolding static_partitioned static_partition
static_partitioned-Empty net [] n e = e
static_partitioned-Empty net (p ∷ ps) n e =
    static_partitioned-Empty net ps (static_partition net p n) e

built-Empty :
    (net : NetIp) (c : Called NetworkConfig) (n : Network) → built net c ≡ returned n → Empty n
unfolding built fresh_network
built-Empty net panics n e = cc
built-Empty net (returned c) n e =
    subst (λ (x : Called Network). EmptyCall x) e
      (static_partitioned-Empty net c.static_partitions (fresh_network c) (refl, refl))
  where
    EmptyCall : Called Network → Type 0
    EmptyCall (returned m) = Empty m
    EmptyCall panics = ⊥

none-some {ℓ} : {A : Type ℓ} (o : Option A) (a : A) → o ≡ none → o ≡ some a → ⊥
none-some o a e f = (let both : true ≡ false = ap is_some (sym f ∙ e) in cc)

Empty-RegistryInv : (n : Network) → Empty n → RegistryInv n
unfolding socket_at
Empty-RegistryInv n e = record {
  registered = λ s k at act. absurd (no_socket s k at);
  known = λ peer port s at. absurd (no_entry peer port s at);
  closing = λ s k at d. absurd (no_socket s k at);
}
  where
    no_socket : (s : ℕ) (k : Socket) → get_elem? n.sockets s ≡ some k → ⊥
    no_socket s k = none-some _ k (ap (λ ks. get_elem? ks s) e.0)

    no_entry : (peer : Str) (port s : ℕ) → socket_at peer port n.listeners ≡ some s → ⊥
    no_entry peer port s = none-some _ s (ap (socket_at peer port) e.1)

one_address :
    (m : Network) (s t : ℕ) (k j : Socket)
    → get_elem? m.sockets s ≡ some k
    → get_elem? m.sockets t ≡ some j
    → socket_at k.peer k.port m.listeners ≡ some s
    → socket_at j.peer j.port m.listeners ≡ some t
    → same_at k.peer k.port j.peer j.port ≡ (s == t)
one_address m s t k j at_s at_t k_at j_at =
    elim (Bool-cases (same_at k.peer k.port j.peer j.port)) [
      | inl same ↦
          let (same_peer, same_port) = same_at_iff k.peer k.port j.peer j.port same in
          let one : s ≡ t = some-injective s t (
            sym k_at
            ∙ ap (λ x. socket_at x k.port m.listeners) same_peer
            ∙ ap (λ x. socket_at j.peer x m.listeners) same_port
            ∙ j_at) in
          same ∙ sym ((==_iff s t).1 one)
      | inr other ↦ elim (Bool-cases (s == t)) [
        | inl e ↦
            let one =
              some-injective k j (sym at_s ∙ ap (get_elem? m.sockets) ((==_iff s t).0 e) ∙ at_t) in
            let both : false ≡ true =
              sym other
              ∙ ap (λ (x : Socket). same_at x.peer x.port j.peer j.port) one
              ∙ same_at_refl j.peer j.port in
            absurd (let clash : ⊥ = cc in clash)
        | inr e ↦ other ∙ sym e
      ]
    ]

-- In every state of a Network since its NewNetwork, whatever Listens, Closes (in their two steps),
-- dials, fills and Accepts came in which order: a listener that is open is the one registered at
-- its address, and two open listeners have one address only if they are one listener. So no Close
-- deregisters another listener, not even one made since at the same address.
pub new_network-NetworkReach :
    (net : NetIp) (opts : List (Option NetworkOption)) (n m : Network) (s t : ℕ) (k j : Socket)
    → new_network net opts ≡ returned n
    → NetworkReach net n m
    → get_elem? m.sockets s ≡ some k
    → get_elem? m.sockets t ≡ some j
    → k.queue.closed ≡ false
    → j.queue.closed ≡ false
    → (socket_at k.peer k.port m.listeners ≡ some s)
      × (same_at k.peer k.port j.peer j.port ≡ (s == t))
unfolding new_network
new_network-NetworkReach net opts n m s t k j made reach at_s at_t o p =
    let v =
      NetworkReach-RegistryInv reach
        (Empty-RegistryInv n (built-Empty net (configure opts) n made)) in
    (
      v.registered s k at_s (inl o),
      one_address m s t k j at_s at_t (v.registered s k at_s (inl o))
          (v.registered t j at_t (inl p)),
    )

-- What is registered at an address is a listener with that address, open or in the middle of its
-- Close.
pub new_network-Known :
    (net : NetIp) (opts : List (Option NetworkOption)) (n m : Network) (peer : Str) (port s : ℕ)
    → new_network net opts ≡ returned n
    → NetworkReach net n m
    → socket_at peer port m.listeners ≡ some s
    → Known m.sockets peer port s
unfolding new_network
new_network-Known net opts n m peer port s made reach =
    let v =
      NetworkReach-RegistryInv reach
        (Empty-RegistryInv n (built-Empty net (configure opts) n made)) in
    v.known peer port s
