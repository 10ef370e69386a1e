-- ===== src/Prelude/Lists.antt =====
-- Lists measured and indexed by native numbers, under the library's names.
use Prim.Native.Nat.{ℕ, zero, suc, ◌+◌, ◌<◌, min}
use mathlib.Core.Path.{◌≡◌, refl, ap}
use mathlib.Core.Logic.{◌≢◌, ◌⊎◌, inl, inr}
use mathlib.Core.List.{List, [], ◌∷◌, ◌++◌}
use mathlib.Core.Option.{Option, none, some}
use native.Mathlib.Omega.{arith}

module _ {ℓ} {A : Type ℓ} where
  abbrev pub length : List A → ℕ
  length [] = 0
  length (x ∷ xs) = suc (length xs)

  abbrev pub get_elem? : List A → ℕ → Option A
  get_elem? [] i = none
  get_elem? (x ∷ xs) zero = some x
  get_elem? (x ∷ xs) (suc i) = get_elem? xs i

  abbrev pub get_or : List A → ℕ → A → A
  get_or [] i d = d
  get_or (x ∷ xs) zero d = x
  get_or (x ∷ xs) (suc i) d = get_or xs i d

  -- A write out of bounds changes nothing.
  abbrev pub set : List A → ℕ → A → List A
  set [] i v = []
  set (x ∷ xs) zero v = v ∷ xs
  set (x ∷ xs) (suc i) v = x ∷ set xs i v

  abbrev pub take : ℕ → List A → List A
  take zero xs = []
  take (suc n) [] = []
  take (suc n) (x ∷ xs) = x ∷ take n xs

  abbrev pub drop : ℕ → List A → List A
  drop zero xs = xs
  drop (suc n) [] = []
  drop (suc n) (x ∷ xs) = drop n xs

  abbrev pub replicate : ℕ → A → List A
  replicate zero a = []
  replicate (suc n) a = a ∷ replicate n a

  -- Every element satisfies `P`.
  abbrev pub All {κ} : (A → Type κ) → List A → Type κ
  All P [] = Unit
  All P (x ∷ xs) = P x × All P xs

  pub length-append : (xs ys : List A) → length (xs ++ ys) ≡ length xs + length ys
  length-append [] ys = omega arith
  length-append (x ∷ xs) ys = omega (arith, length-append xs ys)

  pub length-set : (xs : List A) (i : ℕ) (v : A) → length (set xs i v) ≡ length xs
  length-set [] i v = refl
  length-set (x ∷ xs) zero v = refl
  length-set (x ∷ xs) (suc i) v = ap suc (length-set xs i v)

  pub length-replicate : (n : ℕ) (a : A) → length (replicate n a) ≡ n
  length-replicate zero a = refl
  length-replicate (suc n) a = ap suc (length-replicate n a)

  pub length-take : (n : ℕ) (xs : List A) → length (take n xs) ≡ min n (length xs)
  length-take zero xs = omega arith
  length-take (suc n) [] = omega arith
  length-take (suc n) (x ∷ xs) = omega (arith, length-take n xs)

  pub take-append-drop : (n : ℕ) (xs : List A) → take n xs ++ drop n xs ≡ xs
  take-append-drop zero xs = refl
  take-append-drop (suc n) [] = refl
  take-append-drop (suc n) (x ∷ xs) = ap (λ t. x ∷ t) (take-append-drop n xs)

  pub get_elem?-set_self :
      (xs : List A) (i : ℕ) (v : A) → i < length xs → get_elem? (set xs i v) i ≡ some v
  get_elem?-set_self [] i v h = absurd (omega arith)
  get_elem?-set_self (x ∷ xs) zero v h = refl
  get_elem?-set_self (x ∷ xs) (suc i) v h = get_elem?-set_self xs i v (omega arith)

  pub get_elem?-set_ne :
      (xs : List A) (i j : ℕ) (v : A) → i ≢ j → get_elem? (set xs i v) j ≡ get_elem? xs j
  get_elem?-set_ne [] i j v h = refl
  get_elem?-set_ne (x ∷ xs) zero zero v h = absurd (h refl)
  get_elem?-set_ne (x ∷ xs) zero (suc j) v h = refl
  get_elem?-set_ne (x ∷ xs) (suc i) zero v h = refl
  get_elem?-set_ne (x ∷ xs) (suc i) (suc j) v h = get_elem?-set_ne xs i j v (λ e. h (ap suc e))

  pub get_or-set_self :
      (xs : List A) (i : ℕ) (v d : A) → i < length xs → get_or (set xs i v) i d ≡ v
  get_or-set_self [] i v d h = absurd (omega arith)
  get_or-set_self (x ∷ xs) zero v d h = refl
  get_or-set_self (x ∷ xs) (suc i) v d h = get_or-set_self xs i v d (omega arith)

  pub get_or-set_ne :
      (xs : List A) (i j : ℕ) (v d : A) → i ≢ j → get_or (set xs i v) j d ≡ get_or xs j d
  get_or-set_ne [] i j v d h = refl
  get_or-set_ne (x ∷ xs) zero zero v d h = absurd (h refl)
  get_or-set_ne (x ∷ xs) zero (suc j) v d h = refl
  get_or-set_ne (x ∷ xs) (suc i) zero v d h = refl
  get_or-set_ne (x ∷ xs) (suc i) (suc j) v d h = get_or-set_ne xs i j v d (λ e. h (ap suc e))

  pub List-cases : (xs : List A) → (xs ≡ []) ⊎ ((x : A) × (ys : List A) × (xs ≡ x ∷ ys))
  List-cases [] = inl refl
  List-cases (x ∷ xs) = inr (x, xs, refl)
