-- ===== src/Reset/Signaling.antt =====
-- reset.go: the registry and the connections, under the steps of Close and of Reset.
use netchaos.Base.{
  ℕ, ◌≡◌, refl, sym, ap, ◌∙◌, inl, inr, true, false, ◌||◌, Option, none, some, List, ◌∷◌, ◌++◌,
  get_elem?, ◌==◌, arith, if_cases, Bool-cases, if_chosen, if_skipped, along_some, subst, ==_iff,
}
use mathlib.Core.Option.{some-injective}
use netchaos.Rand.{Side, dialer, acceptor}
use netchaos.Peers.{PairKey}
use netchaos.Conn.{Conn, Link, end, signal_reset, set_end}
use netchaos.Conn.Steps.{LinkStep, signaling, Flags, LinkStep-Flags}
use netchaos.Reset.{
  ConnRef, Established, eq_ref, targets_of, delete_targets, deregister_reset, modify,
}
use netchaos.Addr.{is_some}
use netchaos.Reset.Apart.{map_link, get_elem?-modify}
use netchaos.Reset.Refs.{
  has_ref, eq_ref_iff, deregister_reset-Kept, taken_targets, not_deleted, has_ref-middle,
}
use netchaos.Reset.Running.{Running, with_conns, with_targets, at, Live, RegisteredInv}

-- What a step of the connections keeps: each has its pair, and none of its ends comes to life.
abbrev Older : List Established → ℕ → Established → Type 0
Older es i d =
    (e : Established) × (get_elem? es i ≡ some e)
    × (e.pair ≡ d.pair)
    × ((s : Side) → Live (end s d.link) → Live (end s e.link))

Live-Flags : (c d : Conn) → Flags c d → Live d → Live c
Live-Flags c d f (open_now, unreset) = ground arith

modify-Older :
    (i j : ℕ) (f : Link → Link) (es : List Established) (d : Established)
    → ((e : Established)
        → get_elem? es i ≡ some e
        → (s : Side) → Flags (end s e.link) (end s (f e.link)))
    → get_elem? (modify i f es) j ≡ some d
    → Older es j d
modify-Older i j f es d flags e =
    if_cases (λ (o : Option Established). o ≡ some d → Older es j d) (i == j) _ _
      (λ same. changed ((==_iff i j).0 same) (get_elem? es j) refl)
      (λ _ g. (d, g, refl, (λ s live. live))) (sym (get_elem?-modify i j f es) ∙ e)
  where
    changed :
        i ≡ j → (o : Option Established) → get_elem? es j ≡ o → map_link f o ≡ some d → Older es j d
    changed same none found g = cc
    changed same (some x) found g = along_some (Older es j) g (
      x,
      found,
      refl,
      (λ s live.
          Live-Flags (end s x.link) (end s (f x.link)) (flags x (ap (get_elem? es) same ∙ found) s)
            live),
    )

modify-pair :
    (i j : ℕ) (f : Link → Link) (es : List Established) (e : Established)
    → get_elem? es j ≡ some e
    → (d : Established) × (get_elem? (modify i f es) j ≡ some d) × (d.pair ≡ e.pair)
modify-pair i j f es e found = elim (Bool-cases (i == j)) [
  | inl same ↦ (
    record e { link = f e.link },
    get_elem?-modify i j f es
        ∙ if_chosen _ same (map_link f (get_elem? es j)) _
        ∙ ap (map_link f) found,
    refl,
  )
  | inr other ↦ (
    e,
    get_elem?-modify i j f es ∙ if_skipped _ other (map_link f (get_elem? es j)) _ ∙ found,
    refl,
  )
]

pub acting-Inv :
    (i : ℕ) (e : Established) (l : Link) (r : Running)
    → get_elem? r.net.conns i ≡ some e
    → LinkStep e.link l
    → RegisteredInv r
    → RegisteredInv (record r { net = with_conns (modify i (λ _. l) r.net.conns) r.net })
acting-Inv i e l r found step v = record {
  tracked = λ j s d g live.
      let older =
        modify-Older i j (λ _. l) r.net.conns d
          (λ x at_x t.
            subst (λ (y : Established). Flags (end t y.link) (end t l))
              (some-injective e x (sym found ∙ at_x)) (LinkStep-Flags step t))
          g in
      subst
        (λ (k : PairKey).
          (has_ref (at j s) (targets_of k r.net.targets) || has_ref (at j s) r.resetting) ≡ true)
        older.2 (v.tracked j s older.0 older.1 (older.3 s live));
  owned = λ k c h.
      let x = v.owned k c h in
      let y = modify-pair i c.link (λ _. l) r.net.conns x.0 x.1 in (y.0, y.1, y.2 ∙ x.2);
}

-- An end that is signaled is not live.
signal_reset-Live : (s : Side) (l : Link) → Live (end s (signal_reset s l)) → ⊥
unfolding signal_reset end set_end
signal_reset-Live dialer l live = (let both : true ≡ false = live.1 in cc)
signal_reset-Live acceptor l live = (let both : true ≡ false = live.1 in cc)

pub deregistering-Inv :
    (c : ConnRef) (e : Established) (r : Running)
    → get_elem? r.net.conns c.link ≡ some e
    → (end c.side e.link).closed ≡ true
    → RegisteredInv r
    → RegisteredInv
        (record r { net = with_targets (deregister_reset e.pair c r.net.targets) r.net })
deregistering-Inv c e r found closed v = record {
  tracked = λ i s d g live.
      let kept = deregister_reset-Kept c e.pair r.net.targets d.pair (at i s) in
      let differ : eq_ref c (at i s) ≡ false = apart (at i s) d g live in
      let old = v.tracked i s d g live in ground arith;
  owned = λ k d h. v.owned k d ((deregister_reset-Kept c e.pair r.net.targets k d).0 h);
}
  where
    closed_end :
        (d : Established) → get_elem? r.net.conns c.link ≡ some d → Live (end c.side d.link) → ⊥
    closed_end d g live =
        let both : true ≡ false =
          sym closed
          ∙ ap (λ (y : Established). (end c.side y.link).closed)
              (some-injective e d (sym found ∙ g))
          ∙ live.0 in
        cc

    apart :
        (x : ConnRef) (d : Established)
        → get_elem? r.net.conns x.link ≡ some d
        → Live (end x.side d.link)
        → eq_ref c x ≡ false
    apart x d g live = elim (Bool-cases (eq_ref c x)) [
      | inl same ↦ absurd (
          subst
            (λ (y : ConnRef). get_elem? r.net.conns y.link ≡ some d → Live (end y.side d.link) → ⊥)
            ((eq_ref_iff c x).0 same) (closed_end d) g live)
      | inr e ↦ e
    ]

pub taking-Inv :
    (k : PairKey) (r : Running)
    → RegisteredInv r
    → RegisteredInv (record {
      net = with_targets (delete_targets k r.net.targets) r.net;
      resetting = r.resetting ++ targets_of k r.net.targets;
    })
taking-Inv k r v = record {
  tracked = λ i s d g live.
      taken_targets k d.pair (at i s) r.net.targets r.resetting (v.tracked i s d g live);
  owned = λ m c h. v.owned m c (not_deleted k m c r.net.targets h);
}

signaled :
    (c : ConnRef) (d : Established) (es : List Established)
    → get_elem? (modify c.link (signal_reset c.side) es) c.link ≡ some d
    → Live (end c.side d.link)
    → ⊥
signaled c d es g = from (get_elem? es c.link) (
    sym (if_chosen _ ((==_iff c.link c.link).1 refl) (map_link (signal_reset c.side) _) _)
    ∙ sym (get_elem?-modify c.link c.link (signal_reset c.side) es)
    ∙ g)
  where
    from :
        (o : Option Established)
        → map_link (signal_reset c.side) o ≡ some d
        → Live (end c.side d.link)
        → ⊥
    from none e = absurd (let both : true ≡ false = ap is_some (sym e) in cc)
    from (some x) e =
        along_some (λ (y : Established). Live (end c.side y.link) → ⊥) e
          (signal_reset-Live c.side x.link)

pub signaling-Inv :
    (xs : List ConnRef) (c : ConnRef) (ys : List ConnRef) (r : Running)
    → r.resetting ≡ xs ++ c ∷ ys
    → RegisteredInv r
    → RegisteredInv (record {
      net = with_conns (modify c.link (signal_reset c.side) r.net.conns) r.net;
      resetting = xs ++ ys;
    })
signaling-Inv xs c ys r split v = record {
  tracked = λ j s d g live.
      let older =
        modify-Older c.link j (signal_reset c.side) r.net.conns d
          (λ x _ t. LinkStep-Flags (signaling c.side x.link) t) g in
      let old : (has_ref (at j s) (targets_of d.pair r.net.targets)
            || has_ref (at j s) (xs ++ c ∷ ys))
          ≡ true =
        ap (λ l. has_ref (at j s) (targets_of d.pair r.net.targets) || has_ref (at j s) l)
          (sym split)
        ∙ subst
            (λ (k : PairKey).
              (has_ref (at j s) (targets_of k r.net.targets) || has_ref (at j s) r.resetting)
              ≡ true)
            older.2 (v.tracked j s older.0 older.1 (older.3 s live)) in
      ap (λ b. has_ref (at j s) (targets_of d.pair r.net.targets) || b)
        (sym (has_ref-middle c (at j s) xs ys (apart (at j s) d g live)))
      ∙ old;
  owned = λ k d h.
      let x = v.owned k d h in
      let y = modify-pair c.link d.link (signal_reset c.side) r.net.conns x.0 x.1 in
      (y.0, y.1, y.2 ∙ x.2);
}
  where
    apart :
        (x : ConnRef) (d : Established)
        → get_elem? (modify c.link (signal_reset c.side) r.net.conns) x.link ≡ some d
        → Live (end x.side d.link)
        → eq_ref c x ≡ false
    apart x d g live = elim (Bool-cases (eq_ref c x)) [
      | inl same ↦ absurd (
          subst
            (λ (y : ConnRef).
              get_elem? (modify c.link (signal_reset c.side) r.net.conns) y.link ≡ some d
              → Live (end y.side d.link)
              → ⊥)
            ((eq_ref_iff c x).0 same) (signaled c d r.net.conns) g live)
      | inr e ↦ e
    ]
