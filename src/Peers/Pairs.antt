-- ===== src/Peers/Pairs.antt =====
-- partition.go: equality of pairs of peers, and the set of pairs.
use netchaos.Base.{true, false, List, [], ◌∷◌, ◌≡◌, ◌↔◌, arith, refl, ◌⊎◌, if◌then◌else◌}
use netchaos.Peers.{Str, PairKey, eq_str, le_str, new_pair_key, eq_pair, has_pair, delete_pair}

pub eq_str_iff : (x y : Str) → (eq_str x y ≡ true) ↔ (x ≡ y)
unfolding eq_str
eq_str_iff [] [] = ((λ _. refl), (λ _. refl))
eq_str_iff [] (y ∷ ys) = ((λ e. cc), (λ e. cc))
eq_str_iff (x ∷ xs) [] = ((λ e. cc), (λ e. cc))
eq_str_iff (x ∷ xs) (y ∷ ys) = ground (arith, eq_str_iff xs ys)

pub eq_pair_iff : (k m : PairKey) → (eq_pair k m ≡ true) ↔ (k ≡ m)
unfolding eq_pair
eq_pair_iff k m = ground (arith, eq_str_iff k.a m.a, eq_str_iff k.b m.b)

le_str_antisymm : (x y : Str) → le_str x y ≡ true → le_str y x ≡ true → x ≡ y
unfolding le_str
le_str_antisymm [] [] h k = refl
le_str_antisymm [] (y ∷ ys) h k = cc
le_str_antisymm (x ∷ xs) [] h k = cc
le_str_antisymm (x ∷ xs) (y ∷ ys) h k = ground (arith, le_str_antisymm xs ys)

le_str_total : (x y : Str) → le_str x y ≡ false → le_str y x ≡ true
unfolding le_str
le_str_total [] [] h = refl
le_str_total [] (y ∷ ys) h = cc
le_str_total (x ∷ xs) [] h = refl
le_str_total (x ∷ xs) (y ∷ ys) h = ground (arith, le_str_total xs ys)

-- A pair does not depend on the order in which its peers are named, and determines them.
pub new_pair_key_comm : (x y : Str) → new_pair_key x y ≡ new_pair_key y x
unfolding new_pair_key
new_pair_key_comm x y = ground (arith, le_str_antisymm x y, le_str_total x y, le_str_total y x)

pub new_pair_key_iff :
    (x y u v : Str)
    → (new_pair_key x y ≡ new_pair_key u v) ↔ (((x ≡ u) × (y ≡ v)) ⊎ ((x ≡ v) × (y ≡ u)))
unfolding new_pair_key
new_pair_key_iff x y u v =
    ground (arith, le_str_antisymm x y, le_str_total x y, le_str_antisymm u v, le_str_total u v)

pub has_pair-delete_pair :
    (k m : PairKey) (ms : List PairKey)
    → has_pair m (delete_pair k ms) ≡ (if eq_pair k m then false else has_pair m ms)
unfolding has_pair delete_pair
has_pair-delete_pair k m [] = ground arith
has_pair-delete_pair k m (x ∷ ms) =
    ground (arith, has_pair-delete_pair k m ms, eq_pair_iff x k, eq_pair_iff x m, eq_pair_iff k m)
