-- ===== src/Network/Closing.antt =====
-- netchaos.go and listener.go: the registry when a listener changes, and when it is deregistered.
use netchaos.Base.{
  ℕ, ◌≡◌, sym, ap, ◌∙◌, ◌⊎◌, inl, inr, true, false, Option, none, some, get_elem?, if_chosen,
  if_skipped, ◌==◌, arith, if_cases, Bool-cases, subst, ==_iff,
}
use mathlib.Core.Option.{some-injective}
use netchaos.Peers.{Str}
use netchaos.Network.{Socket, Network}
use netchaos.Network.Ports.{socket_at}
use netchaos.Network.Listening.{delete_entry, deregister, set_socket, put_socket, finish_close}
use netchaos.Network.Registry.{
  Active, Known, RegistryInv, get_elem?-set_socket, same_at, same_at_iff, same_at_refl,
  socket_at-delete_entry,
}

-- A listener replaced by one at the same address, as active as it was.
pub put_socket-RegistryInv :
    (s : ℕ) (k j : Socket) (n : Network)
    → get_elem? n.sockets s ≡ some k
    → j.peer ≡ k.peer
    → j.port ≡ k.port
    → (Active j → Active k)
    → (Active k → Active j)
    → (j.deregistering ≡ true → j.queue.closed ≡ true)
    → RegistryInv n
    → RegistryInv (put_socket s j n)
unfolding put_socket
put_socket-RegistryInv s k j n at same_peer same_port to from closes v = record {
  registered = λ t i e act. registered_at t i act (entry t i e);
  known = λ peer port t e. known_at peer port t (v.known peer port t e);
  closing = λ t i e d. closing_at t i d (entry t i e);
}
  where
    Entry : ℕ → Socket → Type 0
    Entry t i = ((s ≡ t) × (j ≡ i)) ⊎ (get_elem? n.sockets t ≡ some i)

    entry : (t : ℕ) (i : Socket) → get_elem? (set_socket s j n.sockets) t ≡ some i → Entry t i
    entry t i e =
        if_cases (λ (o : Option Socket). o ≡ some i → Entry t i) (s == t) _ _
          (λ same f. inl (ground arith, some-injective j i f)) (λ _ f. inr f)
          (sym (get_elem?-set_socket n.sockets s t j k at) ∙ e)

    registered_at :
        (t : ℕ) (i : Socket) → Active i → Entry t i → socket_at i.peer i.port n.listeners ≡ some t
    registered_at t i act (inl new) =
        subst (λ (x : Socket). Active x → socket_at x.peer x.port n.listeners ≡ some t) new.1
          (subst (λ (u : ℕ). Active j → socket_at j.peer j.port n.listeners ≡ some u) new.0
            (λ a.
              ap (λ p. socket_at p j.port n.listeners) same_peer
              ∙ ap (λ q. socket_at k.peer q n.listeners) same_port
              ∙ v.registered s k at (to a)))
          act
    registered_at t i act (inr old) = v.registered t i old act

    known_at :
        (peer : Str) (port t : ℕ)
        → Known n.sockets peer port t
        → Known (set_socket s j n.sockets) peer port t
    known_at peer port t x = elim (Bool-cases (s == t)) [
      | inl e ↦
          let is_k : x.0 ≡ k =
            some-injective x.0 k
              (sym x.1 ∙ ap (get_elem? n.sockets) (sym ((==_iff s t).0 e)) ∙ at) in
          (
            j,
            get_elem?-set_socket n.sockets s t j k at ∙ if_chosen (s == t) e (some j) _,
            same_peer ∙ ap (λ (i : Socket). i.peer) (sym is_k) ∙ x.2,
            same_port ∙ ap (λ (i : Socket). i.port) (sym is_k) ∙ x.3,
            from (subst Active is_k x.4),
          )
      | inr e ↦ (
        x.0,
        get_elem?-set_socket n.sockets s t j k at ∙ if_skipped (s == t) e (some j) _ ∙ x.1,
        x.2,
        x.3,
        x.4,
      )
    ]

    closing_at : (t : ℕ) (i : Socket) → i.deregistering ≡ true → Entry t i → i.queue.closed ≡ true
    closing_at t i d (inl new) =
        subst (λ (x : Socket). x.deregistering ≡ true → x.queue.closed ≡ true) new.1 closes d
    closing_at t i d (inr old) = v.closing t i old d

-- The same listener, once it is no longer registered.
pub finish_close-RegistryInv :
    (s : ℕ) (k : Socket) (n : Network)
    → get_elem? n.sockets s ≡ some k
    → k.deregistering ≡ true
    → RegistryInv n
    → RegistryInv (finish_close s k n)
unfolding finish_close deregister put_socket
finish_close-RegistryInv s k n at d v = record {
  registered = λ t i e act. registered_at t i act (entry t i e);
  known = λ peer port t e. known_at peer port t e;
  closing = λ t i e f. closing_at t i f (entry t i e);
}
  where
    j : Socket
    j = record k { deregistering = false }

    shut : k.queue.closed ≡ true
    shut = v.closing s k at d

    -- A listener with another number.
    Entry : ℕ → Socket → Type 0
    Entry t i = (j ≡ i) ⊎ (((s == t) ≡ false) × (get_elem? n.sockets t ≡ some i))

    entry : (t : ℕ) (i : Socket) → get_elem? (set_socket s j n.sockets) t ≡ some i → Entry t i
    entry t i e =
        if_cases (λ (o : Option Socket). o ≡ some i → Entry t i) (s == t) _ _
          (λ _ f. inl (some-injective j i f)) (λ differ f. inr (differ, f))
          (sym (get_elem?-set_socket n.sockets s t j k at) ∙ e)

    retired : (i : Socket) → j ≡ i → Active i → ⊥
    retired i new act =
        subst (λ (x : Socket). Active x → ⊥) new
          (λ a. elim a [ inl o ↦ (let both : true ≡ false = sym shut ∙ o in cc) | inr f ↦ cc ]) act

    apart :
        (t : ℕ) (i : Socket)
        → same_at k.peer k.port i.peer i.port ≡ true
        → (s == t) ≡ false
        → socket_at i.peer i.port n.listeners ≡ some t
        → ⊥
    apart t i same differ at_t =
        let (same_peer, same_port) = same_at_iff k.peer k.port i.peer i.port same in
        let one : s ≡ t = some-injective s t (
          sym (v.registered s k at (inr d))
          ∙ ap (λ p. socket_at p k.port n.listeners) same_peer
          ∙ ap (λ q. socket_at i.peer q n.listeners) same_port
          ∙ at_t) in
        let both : true ≡ false = sym ((==_iff s t).1 one) ∙ differ in cc

    known_at :
        (peer : Str) (port t : ℕ)
        → socket_at peer port (delete_entry k.peer k.port n.listeners) ≡ some t
        → Known (set_socket s j n.sockets) peer port t
    known_at peer port t e = elim (Bool-cases (same_at k.peer k.port peer port)) [
      | inl same ↦
          let gone : none ≡ some t =
            sym
              (socket_at-delete_entry k.peer k.port peer port n.listeners ∙ if_chosen _ same none _)
            ∙ e in
          cc
      | inr other ↦
          still
            (v.known peer port t (
              sym (
                socket_at-delete_entry k.peer k.port peer port n.listeners
                ∙ if_skipped _ other none _)
              ∙ e))
            other
    ]
      where
        still :
            Known n.sockets peer port t
            → same_at k.peer k.port peer port ≡ false
            → Known (set_socket s j n.sockets) peer port t
        still x other = elim (Bool-cases (s == t)) [
          | inl e ↦
              let is_k : x.0 ≡ k =
                some-injective x.0 k
                  (sym x.1 ∙ ap (get_elem? n.sockets) (sym ((==_iff s t).0 e)) ∙ at) in
              let same : same_at x.0.peer x.0.port peer port ≡ true =
                ap (λ p. same_at p x.0.port peer port) x.2
                ∙ ap (λ q. same_at peer q peer port) x.3
                ∙ same_at_refl peer port in
              let both : true ≡ false =
                sym same ∙ ap (λ (i : Socket). same_at i.peer i.port peer port) is_k ∙ other in
              cc
          | inr e ↦ (
            x.0,
            get_elem?-set_socket n.sockets s t j k at ∙ if_skipped (s == t) e (some j) _ ∙ x.1,
            x.2,
            x.3,
            x.4,
          )
        ]

    registered_at :
        (t : ℕ) (i : Socket)
        → Active i
        → Entry t i
        → socket_at i.peer i.port (delete_entry k.peer k.port n.listeners) ≡ some t
    registered_at t i act (inl new) = absurd (retired i new act)
    registered_at t i act (inr (differ, old)) =
        socket_at-delete_entry k.peer k.port i.peer i.port n.listeners
        ∙ elim (Bool-cases (same_at k.peer k.port i.peer i.port)) [
          | inl same ↦ absurd (apart t i same differ (v.registered t i old act))
          | inr e ↦ if_skipped _ e none _ ∙ v.registered t i old act
        ]

    closing_at : (t : ℕ) (i : Socket) → i.deregistering ≡ true → Entry t i → i.queue.closed ≡ true
    closing_at t i f (inl new) =
        subst (λ (x : Socket). x.deregistering ≡ true → x.queue.closed ≡ true) new (λ _. shut) f
    closing_at t i f (inr old) = v.closing t i old.1 f
