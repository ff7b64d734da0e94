-- ===== src/Prelude/Lists.antt =====
-- C arrays as lists with native indices.
use Prim.Native.Nat.{ℕ, zero, suc, ◌+◌, ◌-◌, ◌<◌, ◌≤◌}
use mathlib.Core.Path.{◌≡◌, refl, ap}
use mathlib.Core.Logic.{◌≢◌}
use mathlib.Core.List.{List, [], ◌∷◌, ◌++◌}
use mathlib.Core.Option.{Option, none, some}
use native.Mathlib.Omega.{arith}

module _ {ℓ} {A : Type ℓ} where
  abbrev pub length : List A → ℕ
  length [] = 0
  length (_ ∷ xs) = suc (length xs)

  abbrev pub get_or : List A → ℕ → A → A
  get_or [] _ d = d
  get_or (x ∷ _) zero _ = x
  get_or (_ ∷ xs) (suc i) d = get_or xs i d

  -- A write out of range changes nothing.
  abbrev pub set : List A → ℕ → A → List A
  set [] _ _ = []
  set (_ ∷ xs) zero v = v ∷ xs
  set (x ∷ xs) (suc i) v = x ∷ set xs i v

  abbrev pub replicate : ℕ → A → List A
  replicate zero _ = []
  replicate (suc n) a = a ∷ replicate n a

  abbrev pub take : ℕ → List A → List A
  take zero _ = []
  take (suc n) [] = []
  take (suc n) (x ∷ xs) = x ∷ take n xs

  abbrev pub drop : ℕ → List A → List A
  drop zero xs = xs
  drop (suc n) [] = []
  drop (suc n) (_ ∷ xs) = drop n xs

  pub length-take-drop :
      (n : ℕ) (xs ys : List A)
      → n ≤ length xs
      → n ≤ length ys
      → length (take n xs ++ drop n ys) ≡ length ys
  length-take-drop zero xs ys hx hy = refl
  length-take-drop (suc n) [] ys hx hy = absurd (omega arith)
  length-take-drop (suc n) (x ∷ xs) [] hx hy = absurd (omega arith)
  length-take-drop (suc n) (x ∷ xs) (y ∷ ys) hx hy =
      ap suc (length-take-drop n xs ys (omega arith) (omega arith))

  pub length-take-le : (n : ℕ) (xs : List A) → length (take n xs) ≤ n
  length-take-le zero xs = omega arith
  length-take-le (suc n) [] = omega arith
  length-take-le (suc n) (x ∷ xs) = omega (arith, length-take-le n xs)

  pub length-take : (n : ℕ) (xs : List A) → n ≤ length xs → length (take n xs) ≡ n
  length-take zero xs h = refl
  length-take (suc n) [] h = absurd (omega arith)
  length-take (suc n) (x ∷ xs) h = ap suc (length-take n xs (omega arith))

  pub length-drop : (n : ℕ) (xs : List A) → length (drop n xs) + n ≡ length xs + (n - length xs)
  length-drop zero xs = omega arith
  length-drop (suc n) [] = omega arith
  length-drop (suc n) (x ∷ xs) = omega (arith, length-drop n xs)

  pub take-append : (n : ℕ) (xs ys : List A) → n ≤ length xs → take n (xs ++ ys) ≡ take n xs
  take-append zero xs ys h = refl
  take-append (suc n) [] ys h = absurd (omega arith)
  take-append (suc n) (x ∷ xs) ys h = ap (λ l. x ∷ l) (take-append n xs ys (omega arith))

  pub take-take : (n : ℕ) (xs : List A) → take n (take n xs) ≡ take n xs
  take-take zero xs = refl
  take-take (suc n) [] = refl
  take-take (suc n) (x ∷ xs) = ap (λ l. x ∷ l) (take-take n xs)

  pub drop-append : (xs ys : List A) (n : ℕ) → drop (length xs + n) (xs ++ ys) ≡ drop n ys
  drop-append [] ys n = ap (λ k. drop k ys) (omega arith)
  drop-append (x ∷ xs) ys n =
      let e : suc (length xs) + n ≡ suc (length xs + n) = omega arith in rw e (drop-append xs ys n)

  pub get_or-append :
      (xs ys : List A) (n : ℕ) (d : A) → get_or (xs ++ ys) (length xs + n) d ≡ get_or ys n d
  get_or-append [] ys n d = ap (λ k. get_or ys k d) (omega arith)
  get_or-append (x ∷ xs) ys n d =
      let e : suc (length xs) + n ≡ suc (length xs + n) = omega arith in
      rw e (get_or-append xs ys n d)

  abbrev pub sum_by : (A → ℕ) → List A → ℕ
  sum_by f [] = 0
  sum_by f (x ∷ xs) = f x + sum_by f xs

  pub sum_by-set :
      (f : A → ℕ) (xs : List A) (i : ℕ) (v d : A)
      → i < length xs
      → sum_by f (set xs i v) + f (get_or xs i d) ≡ sum_by f xs + f v
  sum_by-set f [] i v d h = absurd (omega arith)
  sum_by-set f (x ∷ xs) zero v d h = omega arith
  sum_by-set f (x ∷ xs) (suc i) v d h = omega (arith, sum_by-set f xs i v d (omega arith))

  pub length-append : (xs ys : List A) → length (xs ++ ys) ≡ length xs + length ys
  length-append [] ys = omega arith
  length-append (x ∷ xs) ys = omega (arith, length-append xs ys)

  pub length-set : (xs : List A) (i : ℕ) (v : A) → length (set xs i v) ≡ length xs
  length-set [] i v = refl
  length-set (x ∷ xs) zero v = refl
  length-set (x ∷ xs) (suc i) v = ap suc (length-set xs i v)

  pub length-replicate : (n : ℕ) (a : A) → length (replicate n a) ≡ n
  length-replicate zero a = refl
  length-replicate (suc n) a = ap suc (length-replicate n a)

  pub get_or-set_self :
      (xs : List A) (i : ℕ) (v d : A) → i < length xs → get_or (set xs i v) i d ≡ v
  get_or-set_self [] i v d h = absurd (omega arith)
  get_or-set_self (x ∷ xs) zero v d h = refl
  get_or-set_self (x ∷ xs) (suc i) v d h = get_or-set_self xs i v d (omega arith)

  pub get_or-set_ne :
      (xs : List A) (i j : ℕ) (v d : A) → i ≢ j → get_or (set xs i v) j d ≡ get_or xs j d
  get_or-set_ne [] i j v d h = refl
  get_or-set_ne (x ∷ xs) zero zero v d h = absurd (h refl)
  get_or-set_ne (x ∷ xs) zero (suc j) v d h = refl
  get_or-set_ne (x ∷ xs) (suc i) zero v d h = refl
  get_or-set_ne (x ∷ xs) (suc i) (suc j) v d h = get_or-set_ne xs i j v d (λ e. h (ap suc e))

  pub get_or-replicate : (n i : ℕ) (a : A) → get_or (replicate n a) i a ≡ a
  get_or-replicate zero i a = refl
  get_or-replicate (suc n) zero a = refl
  get_or-replicate (suc n) (suc i) a = get_or-replicate n i a

-- How many slots of an array of pointers are not NULL.
module _ {ℓ} {A : Type ℓ} where
  abbrev pub count_slot : Option A → ℕ
  count_slot none = 0
  count_slot (some _) = 1

  pub count_some : List (Option A) → ℕ
  count_some [] = 0
  count_some (o ∷ os) = count_slot o + count_some os

  pub count_some-set :
      (os : List (Option A)) (i : ℕ) (o : Option A)
      → i < length os
      → count_some (set os i o) + count_slot (get_or os i none) ≡ count_some os + count_slot o
  unfolding count_some
  count_some-set [] i o h = absurd (omega arith)
  count_some-set (p ∷ os) zero o h = omega arith
  count_some-set (p ∷ os) (suc i) o h = omega (arith, count_some-set os i o (omega arith))

  pub count_some-zero : (os : List (Option A)) (i : ℕ) → count_some os ≡ 0 → get_or os i none ≡ none
  unfolding count_some
  count_some-zero [] i h = refl
  count_some-zero (none ∷ os) zero h = refl
  count_some-zero (some a ∷ os) zero h = absurd (omega arith)
  count_some-zero (o ∷ os) (suc i) h = count_some-zero os i (omega arith)

  pub count_some-le : (os : List (Option A)) → count_some os ≤ length os
  unfolding count_some
  count_some-le [] = omega arith
  count_some-le (none ∷ os) = omega (arith, count_some-le os)
  count_some-le (some a ∷ os) = omega (arith, count_some-le os)

pub count_some-replicate {ℓ} :
    (A : Type ℓ) (n : ℕ) → count_some (replicate {A = Option A} n none) ≡ 0
unfolding count_some
count_some-replicate A zero = refl
count_some-replicate A (suc n) = omega (arith, count_some-replicate A n)
