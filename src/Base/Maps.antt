-- ===== src/Base/Maps.antt =====
-- `HashMap` with number keys, as an association list. Its order stands for the unspecified order
-- in which the map is iterated.
use Prim.Native.Nat.{ℕ, ◌+◌, ◌≤◌}
use mathlib.Core.Path.{◌≡◌, refl}
use mathlib.Core.List.{List, [], ◌∷◌, map}
use mathlib.Core.Option.{Option, none, some}
use native.Mathlib.Omega.{arith}
use download_manager.Base.Tests.{if◌then◌else◌, bit, ◌==◌}
use download_manager.Base.Lists.{tally, count}

module _ {ℓ} {V : Type ℓ} where
  unfoldable pub lookup : ℕ → List (ℕ × V) → Option V
  lookup k [] = none
  lookup k ((j, v) ∷ m) = if j == k then some v else lookup k m

  unfoldable pub insert : ℕ → V → List (ℕ × V) → List (ℕ × V)
  insert k v [] = (k, v) ∷ []
  insert k v ((j, w) ∷ m) = if j == k then (k, v) ∷ m else (j, w) ∷ insert k v m

  unfoldable pub erase : ℕ → List (ℕ × V) → List (ℕ × V)
  erase k [] = []
  erase k ((j, v) ∷ m) = if j == k then erase k m else (j, v) ∷ erase k m

  abbrev pub keys : List (ℕ × V) → List ℕ
  keys = map (λ entry. entry.0)

  pub lookup-nil : (i : ℕ) → lookup i [] ≡ none
  unfolding lookup
  lookup-nil i = refl

  pub lookup-insert :
      (i k : ℕ) (v : V) (m : List (ℕ × V))
      → lookup i (insert k v m) ≡ (if k == i then some v else lookup i m)
  unfolding lookup insert
  lookup-insert i k v [] = refl
  lookup-insert i k v ((j, w) ∷ m) = ground (arith, lookup-insert i k v m)

  pub lookup-erase :
      (i k : ℕ) (m : List (ℕ × V)) → lookup i (erase k m) ≡ (if k == i then none else lookup i m)
  unfolding lookup erase
  lookup-erase i k [] = ground arith
  lookup-erase i k ((j, w) ∷ m) = ground (arith, lookup-erase i k m)

  -- How often a key occurs.
  abbrev pub keyed : ℕ → ℕ × V → ℕ
  keyed i (k, v) = bit (k == i)

  -- The weight of the entry that is found.
  abbrev pub weight : (ℕ × V → ℕ) → ℕ → Option V → ℕ
  weight f k none = 0
  weight f k (some v) = f (k, v)

  pub tally-insert :
      (f : ℕ × V → ℕ) (k : ℕ) (v : V) (m : List (ℕ × V))
      → tally f (insert k v m) + weight f k (lookup k m) ≡ tally f m + f (k, v)
  unfolding lookup insert
  tally-insert f k v [] = omega arith
  tally-insert f k v ((j, w) ∷ m) = ground (arith, tally-insert f k v m)

  erase_missing :
      (f : ℕ × V → ℕ) (k : ℕ) (m : List (ℕ × V))
      → tally (keyed k) m ≡ 0
      → tally f (erase k m) ≡ tally f m
  unfolding erase
  erase_missing f k [] h = refl
  erase_missing f k ((j, w) ∷ m) h = ground (arith, erase_missing f k m)

  pub tally-erase :
      (f : ℕ × V → ℕ) (k : ℕ) (m : List (ℕ × V))
      → tally (keyed k) m ≤ 1
      → tally f (erase k m) + weight f k (lookup k m) ≡ tally f m
  unfolding lookup erase
  tally-erase f k [] h = omega arith
  tally-erase f k ((j, w) ∷ m) h = ground (arith, tally-erase f k m, erase_missing f k m)

  missing-tally : (k : ℕ) (m : List (ℕ × V)) → lookup k m ≡ none → tally (keyed k) m ≡ 0
  unfolding lookup
  missing-tally k [] h = refl
  missing-tally k ((j, w) ∷ m) h = ground (arith, missing-tally k m)

  -- A `HashMap` holds a key once.
  abbrev pub Unique : List (ℕ × V) → Type 0
  Unique m = (k : ℕ) → tally (keyed k) m ≤ 1

  pub insert-Unique : (k : ℕ) (v : V) (m : List (ℕ × V)) → Unique m → Unique (insert k v m)
  insert-Unique k v m u i =
      ground (arith, tally-insert (keyed i) k v m, missing-tally k m, u i, u k)

  pub erase-Unique : (k : ℕ) (m : List (ℕ × V)) → Unique m → Unique (erase k m)
  erase-Unique k m u i = ground (arith, tally-erase (keyed i) k m, u i, u k)

  pub missing-keys : (k : ℕ) (m : List (ℕ × V)) → count k (keys m) ≡ 0 → lookup k m ≡ none
  unfolding lookup
  missing-keys k [] h = refl
  missing-keys k ((j, w) ∷ m) h = ground (arith, missing-keys k m)

  pub nil_of_lookup : (m : List (ℕ × V)) → ((i : ℕ) → lookup i m ≡ none) → m ≡ []
  unfolding lookup
  nil_of_lookup [] h = refl
  nil_of_lookup ((j, w) ∷ m) h = ground (arith, h j)
