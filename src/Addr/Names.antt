-- ===== src/Addr/Names.antt =====
-- addr.go: the decimal text of a number, and the names made from one.
use netchaos.Base.{
  ℕ, zero, suc, ◌+◌, ◌-◌, ◌*◌, ◌/◌, ◌%◌, ◌≤◌, ◌<◌, ◌≡◌, ◌≢◌, refl, sym, ap, ◌∙◌, false, ◌||◌, some,
  [], ◌∷◌, ◌++◌, ltb, arith, if_cases, All, All-append, drop, ◌⊎◌, ltb→lt,
}
use netchaos.Peers.{Str}
use mathlib.Core.Option.{some-injective}
use netchaos.Addr.Text.{contains, digits_value, decimal_digits, decimal}
use netchaos.Addr.{
  NetIp, peer_name, split_addr, ephemeral_peer_name, wildcard_peer_name, ephemeral_prefix,
  wildcard_prefix,
}

abbrev pub IsDigits : Str → Type 0
IsDigits = All (λ c. (b'0' ≤ c) × (c ≤ b'9'))

pub decimal_digits-IsDigits : (fuel n : ℕ) → IsDigits (decimal_digits fuel n)
unfolding decimal_digits
decimal_digits-IsDigits zero n = tt
decimal_digits-IsDigits (suc fuel) n =
    if_cases IsDigits (ltb n 10) _ _
      (λ e. let small : n < 10 = ltb→lt n 10 e in ((omega arith, omega arith), tt))
      (λ e.
        All-append (λ c. (b'0' ≤ c) × (c ≤ b'9')) (decimal_digits fuel (n / 10)) _
          (decimal_digits-IsDigits fuel (n / 10)) ((omega arith, omega arith), tt))

pub digits_value-append :
    (acc : ℕ) (xs : Str) (c : ℕ) (v : ℕ)
    → b'0' ≤ c
    → c ≤ b'9'
    → digits_value acc xs ≡ some v
    → digits_value acc (xs ++ c ∷ []) ≡ some (v * 10 + (c - b'0'))
unfolding digits_value
digits_value-append acc [] c v h k e = ground (arith)
digits_value-append acc (x ∷ xs) c v h k e =
    ground (arith, digits_value-append (acc * 10 + (x - b'0')) xs c v)

pub digits_value-decimal : (fuel n : ℕ) → n < fuel → digits_value 0 (decimal_digits fuel n) ≡ some n
unfolding decimal_digits digits_value
digits_value-decimal zero n h = absurd (omega arith)
digits_value-decimal (suc fuel) n h =
    if_cases (λ (s : Str). digits_value 0 s ≡ some n) (ltb n 10) _ _
      (λ e. let small : n < 10 = ltb→lt n 10 e in ground arith)
      (λ e.
        digits_value-append 0 (decimal_digits fuel (n / 10)) (b'0' + n % 10) (n / 10) (omega arith)
          (omega arith) (digits_value-decimal fuel (n / 10) (ground arith))
        ∙ ap some (omega arith))

pub contains-append : (c : ℕ) (xs ys : Str) → contains c (xs ++ ys) ≡ contains c xs || contains c ys
unfolding contains
contains-append c [] ys = refl
contains-append c (x ∷ xs) ys = ground (arith, contains-append c xs ys)

-- A byte that is no digit is not in a string of digits.
pub contains-IsDigits :
    (c : ℕ) (ds : Str) → (c < b'0') ⊎ (b'9' < c) → IsDigits ds → contains c ds ≡ false
unfolding contains
contains-IsDigits c [] h d = refl
contains-IsDigits c (x ∷ xs) h d = ground (arith, contains-IsDigits c xs h d.1)

pub decimal-IsDigits : (n : ℕ) → IsDigits (decimal n)
unfolding decimal
decimal-IsDigits n = decimal_digits-IsDigits (suc n) n

pub decimal_value : (n : ℕ) → digits_value 0 (decimal n) ≡ some n
unfolding decimal
decimal_value n = digits_value-decimal (suc n) n (omega arith)

pub decimal-injective : (m n : ℕ) → decimal m ≡ decimal n → m ≡ n
decimal-injective m n e =
    some-injective m n (sym (decimal_value m) ∙ ap (digits_value 0) e ∙ decimal_value n)

-- A name without a colon is its own peer name.
no_colon : (net : NetIp) (s : Str) → contains b':' s ≡ false → peer_name net s ≡ s
unfolding peer_name split_addr
no_colon net s h = ground arith

synthesized :
    (net : NetIp) (prefix : Str) (n : ℕ)
    → contains b':' prefix ≡ false
    → peer_name net (prefix ++ decimal n) ≡ prefix ++ decimal n
synthesized net prefix n h = no_colon net (prefix ++ decimal n) (
    contains-append b':' prefix (decimal n)
    ∙ ground (arith, contains-IsDigits b':' (decimal n), decimal-IsDigits n))

-- A dialer's made-up name is its own peer name, whatever netip makes of it, and so is a wildcard
-- listener's; two ordinals have different names, and no dialer's is a listener's.
pub synthesized_names :
    (net : NetIp) (m n : ℕ)
    → m ≢ n
    → (peer_name net (ephemeral_peer_name m) ≡ ephemeral_peer_name m)
      × (peer_name net (wildcard_peer_name m) ≡ wildcard_peer_name m)
      × (ephemeral_peer_name m ≢ ephemeral_peer_name n)
      × (wildcard_peer_name m ≢ wildcard_peer_name n)
      × (ephemeral_peer_name m ≢ wildcard_peer_name n)
unfolding ephemeral_peer_name wildcard_peer_name contains
synthesized_names net m n differ = (
  synthesized net ephemeral_prefix m refl,
  synthesized net wildcard_prefix m refl,
  (λ e. differ (decimal-injective m n (ap (drop 10) e))),
  (λ e. differ (decimal-injective m n (ap (drop 9) e))),
  (λ e. ground arith),
)
