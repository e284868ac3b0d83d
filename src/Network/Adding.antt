-- ===== src/Network/Adding.antt =====
-- netchaos.go: the registry when a Listen adds a listener, or none.
use netchaos.Base.{
  ℕ, ◌≡◌, sym, ap, ◌∙◌, ◌⊎◌, inl, inr, true, false, Option, some, [], ◌∷◌, ◌++◌, length, get_elem?,
  get_elem?-append, get_elem?-kept, get_elem?-length, if_chosen, if_skipped, if_cases, along_some,
  Bool-cases, subst,
}
use netchaos.Peers.{Str}
use netchaos.Addr.{is_some}
use netchaos.Network.{Socket, Registered, Network}
use netchaos.Network.Ports.{socket_at}
use netchaos.Network.Changes.{Added, Same, Change}
use netchaos.Network.Registry.{Active, Known, RegistryInv, same_at, same_at_iff, same_at_refl}

pub Same-RegistryInv : (n m : Network) → Same n m → RegistryInv n → RegistryInv m
Same-RegistryInv n m e v = record {
  registered = λ s k at act.
      ap (socket_at k.peer k.port) e.1
      ∙ v.registered s k (ap (λ ks. get_elem? ks s) (sym e.0) ∙ at) act;
  known = λ peer port s at.
      let x = v.known peer port s (ap (socket_at peer port) (sym e.1) ∙ at) in
      (x.0, ap (λ ks. get_elem? ks s) e.0 ∙ x.1, x.2, x.3, x.4);
  closing = λ s k at. v.closing s k (ap (λ ks. get_elem? ks s) (sym e.0) ∙ at);
}

Added-RegistryInv : (n m : Network) (k : Socket) → Added n m k → RegistryInv n → RegistryInv m
unfolding socket_at
Added-RegistryInv n m k (sockets, listeners, unused, is_open, idle) v = record {
  registered = λ t i at act.
      ap (socket_at i.peer i.port) listeners
      ∙ registered_at t i act
          (get_elem?-append n.sockets k t i (ap (λ ks. get_elem? ks t) (sym sockets) ∙ at));
  known = λ peer port t at.
      let x = known_at peer port t (ap (socket_at peer port) (sym listeners) ∙ at) in
      (x.0, ap (λ ks. get_elem? ks t) sockets ∙ x.1, x.2, x.3, x.4);
  closing = λ t i at.
      closing_at t i
        (get_elem?-append n.sockets k t i (ap (λ ks. get_elem? ks t) (sym sockets) ∙ at));
}
  where
    entry : Registered
    entry = record { peer = k.peer; port = k.port; socket = length n.sockets }

    New : ℕ → Socket → Type 0
    New t i = (get_elem? n.sockets t ≡ some i) ⊎ ((t ≡ length n.sockets) × (k ≡ i))

    registered_at :
        (t : ℕ) (i : Socket)
        → Active i
        → New t i
        → socket_at i.peer i.port (entry ∷ n.listeners) ≡ some t
    registered_at t i act (inl old) = elim (Bool-cases (same_at k.peer k.port i.peer i.port)) [
      | inl same ↦ absurd (taken (v.registered t i old act) same)
      | inr e ↦ if_skipped _ e (some (length n.sockets)) _ ∙ v.registered t i old act
    ]
      where
        taken :
            socket_at i.peer i.port n.listeners ≡ some t
            → same_at k.peer k.port i.peer i.port ≡ true
            → ⊥
        taken at same =
            let (same_peer, same_port) = same_at_iff k.peer k.port i.peer i.port same in
            let both : true ≡ false =
              ap is_some (
                sym (
                  ap (λ p. socket_at p k.port n.listeners) same_peer
                  ∙ ap (λ q. socket_at i.peer q n.listeners) same_port
                  ∙ at))
              ∙ unused in
            cc
    registered_at t i act (inr (last, new)) =
        subst (λ (x : Socket). socket_at x.peer x.port (entry ∷ n.listeners) ≡ some t) new
          (if_chosen _ (same_at_refl k.peer k.port) (some (length n.sockets)) _
            ∙ ap some (sym last))

    known_at :
        (peer : Str) (port t : ℕ)
        → socket_at peer port (entry ∷ n.listeners) ≡ some t
        → Known (n.sockets ++ k ∷ []) peer port t
    known_at peer port t =
        if_cases (λ (o : Option ℕ). o ≡ some t → Known (n.sockets ++ k ∷ []) peer port t)
          (same_at k.peer k.port peer port) _ _
          (λ same e.
            let (same_peer, same_port) = same_at_iff k.peer k.port peer port same in
            along_some (λ (u : ℕ). Known (n.sockets ++ k ∷ []) peer port u) e
              (k, get_elem?-length n.sockets k, same_peer, same_port, inl is_open))
          (λ _ e.
            let x = v.known peer port t e in
            (x.0, get_elem?-kept n.sockets k t x.0 x.1, x.2, x.3, x.4))

    closing_at : (t : ℕ) (i : Socket) → New t i → i.deregistering ≡ true → i.queue.closed ≡ true
    closing_at t i (inl old) d = v.closing t i old d
    closing_at t i (inr (last, new)) d =
        let both : true ≡ false = sym d ∙ ap (λ (x : Socket). x.deregistering) (sym new) ∙ idle in
        cc

pub Change-RegistryInv : (n m : Network) → Change n m → RegistryInv n → RegistryInv m
Change-RegistryInv n m (inl e) v = Same-RegistryInv n m e v
Change-RegistryInv n m (inr (k, e)) v = Added-RegistryInv n m k e v
