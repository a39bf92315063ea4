-- ===== src/Base/Lists.antt =====
-- Lists measured by native numbers: length, weighted counts and `VecDeque::retain`.
use Prim.Native.Nat.{ℕ, zero, suc, ◌+◌, ◌≤◌}
use mathlib.Core.Path.{◌≡◌, refl}
use mathlib.Core.Logic.{◌⊎◌, inl, inr}
use mathlib.Core.Bool.{Bool, not}
use mathlib.Core.List.{List, [], ◌∷◌, ◌++◌}
use native.Mathlib.Omega.{arith}
use download_manager.Base.Tests.{if◌then◌else◌, bit, ◌==◌}

module _ {ℓ} {A : Type ℓ} where
  abbrev pub length : List A → ℕ
  length [] = 0
  length (x ∷ xs) = suc (length xs)

  pub length-append : (xs ys : List A) → length (xs ++ ys) ≡ length xs + length ys
  length-append [] ys = omega arith
  length-append (x ∷ xs) ys = omega (arith, length-append xs ys)

  pub List-cases : (xs : List A) → (xs ≡ []) ⊎ ((x : A) × (rest : List A) × (xs ≡ x ∷ rest))
  List-cases [] = inl refl
  List-cases (x ∷ xs) = inr (x, xs, refl)

  pub nil_of_length : (xs : List A) → length xs ≡ 0 → xs ≡ []
  nil_of_length [] h = refl
  nil_of_length (x ∷ xs) h = absurd (omega arith)

  abbrev pub take : ℕ → List A → List A
  take zero xs = []
  take (suc n) [] = []
  take (suc n) (x ∷ xs) = x ∷ take n xs

  abbrev pub drop : ℕ → List A → List A
  drop zero xs = xs
  drop (suc n) [] = []
  drop (suc n) (x ∷ xs) = drop n xs

  pub take_nil : (n : ℕ) → take n [] ≡ []
  take_nil zero = refl
  take_nil (suc n) = refl

  pub drop_nil : (n : ℕ) → drop n [] ≡ []
  drop_nil zero = refl
  drop_nil (suc n) = refl

  pub length-take : (n : ℕ) (xs : List A) → n ≤ length xs → length (take n xs) ≡ n
  length-take zero xs h = refl
  length-take (suc n) [] h = absurd (omega arith)
  length-take (suc n) (x ∷ xs) h = omega (arith, length-take n xs (omega arith))

  -- The sum of a weight over a list; a 0-1 weight counts.
  abbrev pub tally : (A → ℕ) → List A → ℕ
  tally f [] = 0
  tally f (x ∷ xs) = f x + tally f xs

  pub tally-append : (f : A → ℕ) (xs ys : List A) → tally f (xs ++ ys) ≡ tally f xs + tally f ys
  tally-append f [] ys = omega arith
  tally-append f (x ∷ xs) ys = omega (arith, tally-append f xs ys)

  -- `VecDeque::retain`.
  abbrev pub retain : (A → Bool) → List A → List A
  retain keep [] = []
  retain keep (x ∷ xs) = if keep x then x ∷ retain keep xs else retain keep xs

  -- The element at a position, or the last one beyond the end, with the others.
  abbrev pub take_at : ℕ → A → List A → A × List A
  take_at k x [] = (x, [])
  take_at zero x (y ∷ ys) = (x, y ∷ ys)
  take_at (suc k) x (y ∷ ys) = let (found, rest) = take_at k y ys in (found, x ∷ rest)

  pub tally-take_at :
      (f : A → ℕ) (k : ℕ) (x : A) (xs : List A)
      → f (take_at k x xs).0 + tally f (take_at k x xs).1 ≡ f x + tally f xs
  tally-take_at f k x [] = refl
  tally-take_at f zero x (y ∷ ys) = refl
  tally-take_at f (suc k) x (y ∷ ys) = omega (arith, tally-take_at f k y ys)

  pub length-take_at : (k : ℕ) (x : A) (xs : List A) → length (take_at k x xs).1 ≡ length xs
  length-take_at k x [] = refl
  length-take_at zero x (y ∷ ys) = refl
  length-take_at (suc k) x (y ∷ ys) = omega (arith, length-take_at k y ys)

abbrev pub count : ℕ → List ℕ → ℕ
count i = tally (λ j. bit (j == i))

-- `retain(|queued| *queued != id)`.
abbrev pub without : ℕ → List ℕ → List ℕ
without id = retain (λ queued. not (queued == id))

pub count-without :
    (i id : ℕ) (xs : List ℕ) → count i (without id xs) ≡ (if id == i then 0 else count i xs)
count-without i id [] = ground arith
count-without i id (x ∷ xs) = ground (arith, count-without i id xs)
