-- ===== src/Addr/Text.antt =====
-- What addr.go uses of Go's text functions: bytealg's searches, net.SplitHostPort, strconv.Atoi and
-- the verb %d.
use netchaos.Base.{
  ℕ, zero, suc, ◌+◌, ◌-◌, ◌*◌, ◌/◌, ◌%◌, ◌^◌, Bool, true, false, ◌&&◌, ◌||◌, Option, none, some, [],
  ◌∷◌, ◌++◌, ltb, leb, ◌==◌, if◌then◌else◌, ◌>>=◌, take, drop,
}
use netchaos.Base.Int.{ℤ, pos, negsuc}
use netchaos.Peers.{Str}

unfoldable pub contains : ℕ → Str → Bool
contains c [] = false
contains c (x ∷ xs) = x == c || contains c xs

-- IndexByteString
unfoldable pub index : ℕ → Str → Option ℕ
index c [] = none
index c (x ∷ xs) = let rest = (index c xs >>= λ i. some (suc i)) in if x == c then some 0 else rest

abbrev pub last_here : Bool → Option ℕ → Option ℕ
last_here b (some i) = some (suc i)
last_here true none = some 0
last_here false none = none

-- LastIndexByteString
unfoldable pub last_index : ℕ → Str → Option ℕ
last_index c [] = none
last_index c (x ∷ xs) = last_here (x == c) (last_index c xs)

-- The last checks of SplitHostPort, with its j, k and i.
unfoldable pub host_port : Str → Str → ℕ → ℕ → ℕ → Option (Str × Str)
host_port s host j k i =
    if contains b'[' (drop j s)
    then none
    else if contains b']' (drop k s)
    then none
    else some (host, drop (suc i) s)

unfoldable pub bracketed : Str → ℕ → Option (Str × Str)
unfolding host_port
bracketed s i = index b']' s >>= λ end.
    if suc end == i then host_port s (take (end - 1) (drop 1 s)) 1 (suc end) i else none

unfoldable pub unbracketed : Str → ℕ → Option (Str × Str)
unfolding host_port
unbracketed s i = if contains b':' (take i s) then none else host_port s (take i s) 0 0 i

abbrev pub first_is : ℕ → Str → Bool
first_is c [] = false
first_is c (x ∷ xs) = x == c

-- net.SplitHostPort; `none` stands for its *AddrError, which the caller replaces.
unfoldable pub split_host_port : Str → Option (Str × Str)
unfolding bracketed unbracketed
split_host_port s =
    last_index b':' s >>= λ i. if first_is b'[' s then bracketed s i else unbracketed s i

unfoldable pub digits_value : ℕ → Str → Option ℕ
digits_value acc [] = some acc
digits_value acc (c ∷ cs) =
    let rest = digits_value (acc * 10 + (c - b'0')) cs in
    if leb b'0' c && leb c b'9' then rest else none

unfoldable pub number : Str → Option ℕ
unfolding digits_value
number [] = none
number (c ∷ cs) = digits_value 0 (c ∷ cs)

-- `none` where the number is out of int64's range.
abbrev minus : ℕ → Option ℤ
minus zero = some (pos 0)
minus (suc n) = if ltb n (2 ^ 63) then some (negsuc n) else none

abbrev plus : ℕ → Option ℤ
plus n = if ltb n (2 ^ 63) then some (pos n) else none

-- strconv.Atoi: an optional sign, then decimal digits.
unfoldable pub atoi : Str → Option ℤ
unfolding number
atoi [] = none
atoi (c ∷ cs) =
    if c == b'-'
    then number cs >>= minus
    else if c == b'+'
    then number cs >>= plus
    else number (c ∷ cs) >>= plus

-- The digits of a number. The fuel n is enough for it: each round divides it by ten.
unfoldable pub decimal_digits : ℕ → ℕ → Str
decimal_digits zero n = []
decimal_digits (suc fuel) n =
    let front = decimal_digits fuel (n / 10) in
    if ltb n 10 then (b'0' + n) ∷ [] else front ++ (b'0' + n % 10) ∷ []

unfoldable pub decimal : ℕ → Str
unfolding decimal_digits
decimal n = decimal_digits (suc n) n
