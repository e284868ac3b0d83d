-- ===== src/Base/Lists.antt =====
-- Lists measured and cut by native numbers, under the library's names, and queues of payloads.
use Prim.Native.Nat.{ℕ, zero, suc, ◌+◌, ◌-◌, ◌≤◌, min}
use mathlib.Core.Path.{◌≡◌, refl, ap}
use mathlib.Core.Logic.{◌⊎◌, inl, inr}
use mathlib.Core.List.{List, [], ◌∷◌, ◌++◌, append_assoc}
use mathlib.Core.Option.{Option, none, some, some-injective}
use native.Mathlib.Omega.{arith}

module _ {ℓ} {A : Type ℓ} where
  abbrev pub length : List A → ℕ
  length [] = 0
  length (x ∷ xs) = suc (length xs)

  abbrev pub get_elem? : List A → ℕ → Option A
  get_elem? [] i = none
  get_elem? (x ∷ xs) zero = some x
  get_elem? (x ∷ xs) (suc i) = get_elem? xs i

  abbrev pub take : ℕ → List A → List A
  take zero xs = []
  take (suc n) [] = []
  take (suc n) (x ∷ xs) = x ∷ take n xs

  abbrev pub drop : ℕ → List A → List A
  drop zero xs = xs
  drop (suc n) [] = []
  drop (suc n) (x ∷ xs) = drop n xs

  -- Every entry satisfies the predicate.
  abbrev pub All {κ} : (A → Type κ) → List A → Type κ
  All P [] = Unit
  All P (x ∷ xs) = P x × All P xs

  -- An entry of a list with one more at its end.
  pub get_elem?-append :
      (xs : List A) (k : A) (t : ℕ) (j : A)
      → get_elem? (xs ++ k ∷ []) t ≡ some j
      → (get_elem? xs t ≡ some j) ⊎ ((t ≡ length xs) × (k ≡ j))
  get_elem?-append [] k zero j e = inr (refl, some-injective k j e)
  get_elem?-append [] k (suc t) j e = cc
  get_elem?-append (x ∷ xs) k zero j e = inl e
  get_elem?-append (x ∷ xs) k (suc t) j e = elim (get_elem?-append xs k t j e) [
    | inl old ↦ inl old
    | inr new ↦ inr (ap suc new.0, new.1)
  ]

  pub get_elem?-kept :
      (xs : List A) (k : A) (t : ℕ) (j : A)
      → get_elem? xs t ≡ some j
      → get_elem? (xs ++ k ∷ []) t ≡ some j
  get_elem?-kept [] k t j e = cc
  get_elem?-kept (x ∷ xs) k zero j e = e
  get_elem?-kept (x ∷ xs) k (suc t) j e = get_elem?-kept xs k t j e

  pub get_elem?-length : (xs : List A) (k : A) → get_elem? (xs ++ k ∷ []) (length xs) ≡ some k
  get_elem?-length [] k = refl
  get_elem?-length (x ∷ xs) k = get_elem?-length xs k

  pub length-append : (xs ys : List A) → length (xs ++ ys) ≡ length xs + length ys
  length-append [] ys = omega arith
  length-append (x ∷ xs) ys = omega (arith, length-append xs ys)

  pub take-append-drop : (n : ℕ) (xs : List A) → take n xs ++ drop n xs ≡ xs
  take-append-drop zero xs = refl
  take-append-drop (suc n) [] = refl
  take-append-drop (suc n) (x ∷ xs) = rw (take-append-drop n xs)

  pub length-take : (n : ℕ) (xs : List A) → length (take n xs) ≡ min n (length xs)
  length-take zero xs = omega arith
  length-take (suc n) [] = omega arith
  length-take (suc n) (x ∷ xs) = omega (arith, length-take n xs)

  pub length-drop : (n : ℕ) (xs : List A) → length (drop n xs) ≡ length xs - n
  length-drop zero xs = omega arith
  length-drop (suc n) [] = omega arith
  length-drop (suc n) (x ∷ xs) = omega (arith, length-drop n xs)

  pub drop_all : (n : ℕ) (xs : List A) → length xs ≤ n → drop n xs ≡ []
  drop_all zero [] h = refl
  drop_all zero (x ∷ xs) h = absurd (omega arith)
  drop_all (suc n) [] h = refl
  drop_all (suc n) (x ∷ xs) h = drop_all n xs (omega arith)

  pub take_all : (n : ℕ) (xs : List A) → length xs ≤ n → take n xs ≡ xs
  take_all zero [] h = refl
  take_all zero (x ∷ xs) h = absurd (omega arith)
  take_all (suc n) [] h = refl
  take_all (suc n) (x ∷ xs) h = rw (take_all n xs (omega arith))

  pub All-append {κ} : (P : A → Type κ) (xs ys : List A) → All P xs → All P ys → All P (xs ++ ys)
  All-append P [] ys hx hy = hy
  All-append P (x ∷ xs) ys hx hy = (hx.0, All-append P xs ys hx.1 hy)

  -- The bytes of a queue of payloads, in order.
  abbrev pub flatten : List (List A) → List A
  flatten [] = []
  flatten (xs ∷ xss) = xs ++ flatten xss

  -- The bytes that a queue of payloads holds.
  abbrev pub total : List (List A) → ℕ
  total [] = 0
  total (xs ∷ xss) = length xs + total xss

  pub flatten-append : (xss yss : List (List A)) → flatten (xss ++ yss) ≡ flatten xss ++ flatten yss
  flatten-append [] yss = refl
  flatten-append (xs ∷ xss) yss = simp (flatten-append xss yss, append_assoc)

  pub length-flatten : (xss : List (List A)) → length (flatten xss) ≡ total xss
  length-flatten [] = refl
  length-flatten (xs ∷ xss) = omega (arith, length-append xs (flatten xss), length-flatten xss)

  pub total-append : (xss yss : List (List A)) → total (xss ++ yss) ≡ total xss + total yss
  total-append [] yss = omega arith
  total-append (xs ∷ xss) yss = omega (arith, total-append xss yss)
