-- ===== src/Addr/Splitting.antt =====
-- splitAddr on addresses that have a port.
use mathlib.Core.Option.{some-injective}
use netchaos.Base.{
  ℕ, suc, ◌+◌, ◌-◌, ◌/◌, ◌^◌, ◌≤◌, ◌<◌, ◌≡◌, ◌≢◌, refl, ap, ◌∙◌, true, false, ◌||◌, not, Option,
  none, some, [], ◌∷◌, ◌++◌, ltb, ◌==◌, arith, if◌then◌else◌, inr, if_cases, lt→ltb, ◌>>=◌, drop,
  take, length,
}
use netchaos.Base.Int.{ℤ, pos, negsuc}
use netchaos.Peers.{Str, eq_str}
use netchaos.Addr.Text.{
  contains, last_index, bracketed, unbracketed, split_host_port, digits_value, number, atoi,
  decimal_digits, decimal, first_is,
}
use netchaos.Addr.Names.{
  IsDigits, decimal-IsDigits, decimal_value, contains-append, contains-IsDigits,
}
use netchaos.Addr.{
  NetIp, Split, split, invalid_address, invalid_port, checked_port, split_port, split_addr,
  parse_literal_ip, is_some, max_port, ephemeral_port, ephemeral_port_base,
}

abbrev pub PortInRange : Split → Type 0
PortInRange (split host port explicit) = port ≤ max_port
PortInRange invalid_address = Unit
PortInRange invalid_port = Unit

checked_port_range : (host : Str) (o : Option ℤ) → PortInRange (checked_port host o)
unfolding checked_port
checked_port_range host none = tt
checked_port_range host (some (negsuc n)) = tt
checked_port_range host (some (pos n)) =
    if_cases PortInRange (ltb max_port n) _ _ (λ e. tt) (λ e. ground arith)

split_port_range : (o : Option (Str × Str)) → PortInRange (split_port o)
unfolding split_port
split_port_range none = tt
split_port_range (some (host, port)) =
    if_cases PortInRange (eq_str port [] || eq_str port (b'0' ∷ [])) _ _ (λ e. omega arith)
      (λ e. checked_port_range host (atoi port))

-- A port that splitAddr gives is at most 65535, whatever the address.
pub split_addr_range : (net : NetIp) (s : Str) → PortInRange (split_addr net s)
unfolding split_addr
split_addr_range net s =
    if_cases PortInRange (is_some (parse_literal_ip net s)) _ _ (λ e. omega arith)
      (λ e.
        if_cases PortInRange (not (contains b':' s)) _ _ (λ e. omega arith)
          (λ e. split_port_range (split_host_port s)))

last_index-absent : (c : ℕ) (s : Str) → contains c s ≡ false → last_index c s ≡ none
unfolding last_index contains
last_index-absent c [] h = refl
last_index-absent c (x ∷ xs) h = ground (arith, last_index-absent c xs)

last_index-append :
    (c : ℕ) (xs ys : Str) → contains c ys ≡ false → last_index c (xs ++ c ∷ ys) ≡ some (length xs)
unfolding last_index
last_index-append c [] ys h = ground (arith, last_index-absent c ys)
last_index-append c (x ∷ xs) ys h = rw (last_index-append c xs ys h)

take-length : (xs ys : Str) → take (length xs) (xs ++ ys) ≡ xs
take-length [] ys = refl
take-length (x ∷ xs) ys = ap (◌∷◌ x) (take-length xs ys)

drop-length : (xs : Str) (c : ℕ) (ys : Str) → drop (suc (length xs)) (xs ++ c ∷ ys) ≡ ys
drop-length [] c ys = refl
drop-length (x ∷ xs) c ys = drop-length xs c ys

first_is-append : (xs ys : Str) → contains b'[' xs ≡ false → first_is b'[' (xs ++ b':' ∷ ys) ≡ false
unfolding contains
first_is-append [] ys h = refl
first_is-append (x ∷ xs) ys h = ground arith

-- The bytes that a host name may not have here.
abbrev pub Plain : Str → Type 0
Plain host =
    (contains b':' host ≡ false) × (contains b'[' host ≡ false) × (contains b']' host ≡ false)

no_bracket :
    (c : ℕ) (host digits : Str)
    → b':' < c
    → contains c host ≡ false
    → IsDigits digits
    → contains c (host ++ b':' ∷ digits) ≡ false
unfolding contains
no_bracket c host digits k h d =
    contains-append c host (b':' ∷ digits)
    ∙ ground (arith, contains-IsDigits c digits (inr (omega arith)) d)

host_port-join :
    (host digits : Str)
    → Plain host
    → IsDigits digits
    → unbracketed (host ++ b':' ∷ digits) (length host) ≡ some (host, digits)
unfolding unbracketed
host_port-join host digits h d = simp (
  take-length host (b':' ∷ digits),
  drop-length host b':' digits,
  h.0,
  no_bracket b'[' host digits (omega arith) h.1 d,
  no_bracket b']' host digits (omega arith) h.2 d,
)

split_host_port-join :
    (host digits : Str)
    → Plain host
    → IsDigits digits
    → split_host_port (host ++ b':' ∷ digits) ≡ some (host, digits)
unfolding split_host_port
split_host_port-join host digits h d =
    ap
      (λ (o : Option ℕ). o >>= λ i.
        if first_is b'[' (host ++ b':' ∷ digits)
        then bracketed (host ++ b':' ∷ digits) i
        else unbracketed (host ++ b':' ∷ digits) i)
      (last_index-append b':' host digits (contains-IsDigits b':' digits (inr (omega arith)) d))
    ∙ ground (arith, first_is-append host digits h.1, host_port-join host digits h d)

atoi-digits :
    (c : ℕ) (cs : Str) (n : ℕ)
    → IsDigits (c ∷ cs)
    → digits_value 0 (c ∷ cs) ≡ some n
    → n < 2 ^ 63
    → atoi (c ∷ cs) ≡ some (pos n)
unfolding atoi number
atoi-digits c cs n d e k =
    let minus_no : (c == b'-') ≡ false = ground (arith, d) in
    let plus_no : (c == b'+') ≡ false = ground (arith, d) in
    simp (minus_no, plus_no, e, lt→ltb n (2 ^ 63) k)

append-nonempty : (xs : Str) (c : ℕ) → (xs ++ c ∷ []) ≢ []
append-nonempty [] c e = cc
append-nonempty (x ∷ xs) c e = cc

decimal_nonempty : (fuel n : ℕ) → decimal_digits (suc fuel) n ≢ []
unfolding decimal_digits
decimal_nonempty fuel n =
    if_cases (λ (s : Str). s ≢ []) (ltb n 10) _ _ (λ _ e. cc)
      (λ _ e. append-nonempty (decimal_digits fuel (n / 10)) _ e)

not_zero :
    (c : ℕ) (cs : Str) (port : ℕ)
    → IsDigits (c ∷ cs)
    → digits_value 0 (c ∷ cs) ≡ some port
    → 1 ≤ port
    → eq_str (c ∷ cs) (b'0' ∷ []) ≡ false
unfolding eq_str digits_value
not_zero c [] port d e h = ground (arith, some-injective (c - b'0') port)
not_zero c (x ∷ xs) port d e h = ground arith

port_digits :
    (port : ℕ) (ds : Str)
    → ds ≢ []
    → IsDigits ds
    → digits_value 0 ds ≡ some port
    → 1 ≤ port
    → port ≤ max_port
    → (host : Str) → split_port (some (host, ds)) ≡ split host port true
unfolding split_port checked_port
port_digits port [] o d e h k host = absurd (o refl)
port_digits port (c ∷ cs) o d e h k host =
    let other : eq_str (c ∷ cs) (b'0' ∷ []) ≡ false = not_zero c cs port d e h in
    let value : atoi (c ∷ cs) ≡ some (pos port) = atoi-digits c cs port d e (omega arith) in
    let below : ltb max_port port ≡ false = ground arith in simp (other, value, below)

-- A host without colons and brackets comes back from `host:port` with the port, for each port from 1
-- to 65535 (unless the whole is a literal IP), and is its own answer without a port.
pub split_addr-join :
    (net : NetIp) (host : Str) (port : ℕ)
    → Plain host
    → 1 ≤ port
    → port ≤ max_port
    → net.parse (host ++ b':' ∷ decimal port) ≡ none
    → (split_addr net (host ++ b':' ∷ decimal port) ≡ split host port true)
      × (split_addr net host ≡ split host 0 false)
unfolding split_addr parse_literal_ip contains decimal
split_addr-join net host port h l k e =
    let digits = decimal-IsDigits port in
    let has_colon : contains b':' (host ++ b':' ∷ decimal port) ≡ true =
      contains-append b':' host (b':' ∷ decimal port) ∙ ground arith in
    let joined : split_host_port (host ++ b':' ∷ decimal port) ≡ some (host, decimal port) =
      split_host_port-join host (decimal port) h digits in
    let fine : split_port (some (host, decimal port)) ≡ split host port true =
      port_digits port (decimal port) (decimal_nonempty port port) digits (decimal_value port) l k
        host in
    (simp (e, has_colon, joined, fine), ground (arith, h.0))

-- The port of a dialer's made-up address is one of the ephemeral ports, and fewer than 32768 dials
-- apart no two are the same.
pub ephemeral_port_lem :
    (m n : ℕ)
    → m < n
    → n < m + 32768
    → (ephemeral_port_base ≤ ephemeral_port m)
      × (ephemeral_port m ≤ max_port)
      × (ephemeral_port m ≢ ephemeral_port n)
unfolding ephemeral_port
ephemeral_port_lem m n h k = (omega arith, omega arith, (λ e. omega arith))
