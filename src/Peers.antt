-- ===== src/Peers.antt =====
-- partition.go, as far as the other parts read it: peer names, unordered pairs of peers, and the
-- set of partitioned pairs. A Go string is the list of its bytes.
pub mod Pairs
use netchaos.Base.{ℕ, Bool, true, false, List, [], ◌∷◌, ltb, ◌==◌, if◌then◌else◌, ◌&&◌, ◌||◌, ◌≡◌}

abbrev pub Str : Type 0
Str = List ℕ

unfoldable pub eq_str : Str → Str → Bool
eq_str [] [] = true
eq_str [] (y ∷ ys) = false
eq_str (x ∷ xs) [] = false
eq_str (x ∷ xs) (y ∷ ys) = (x == y) && eq_str xs ys

-- Go's `<=` on strings: by bytes, a prefix first.
unfoldable pub le_str : Str → Str → Bool
le_str [] ys = true
le_str (x ∷ xs) [] = false
le_str (x ∷ xs) (y ∷ ys) = ltb x y || ((x == y) && le_str xs ys)

pub record PairKey : Type 0 where
  pub a : Str
  pub b : Str

unfoldable pub new_pair_key : Str → Str → PairKey
new_pair_key x y = if le_str x y then record { a = x; b = y } else record { a = y; b = x }

unfoldable pub eq_pair : PairKey → PairKey → Bool
unfolding eq_str
eq_pair k m = eq_str k.a m.a && eq_str k.b m.b

-- map[pairKey]struct{}
unfoldable pub has_pair : PairKey → List PairKey → Bool
has_pair k [] = false
has_pair k (m ∷ ms) = eq_pair m k || has_pair k ms

unfoldable pub delete_pair : PairKey → List PairKey → List PairKey
delete_pair k [] = []
delete_pair k (m ∷ ms) = let rest = delete_pair k ms in if eq_pair m k then rest else m ∷ rest
