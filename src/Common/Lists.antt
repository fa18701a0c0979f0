-- ===== src/Common/Lists.antt =====
-- Lists by native numbers and Boolean tests: `any`, `all`, `in`, `next(... if ...)` of the source.
use Prim.Native.Nat.{ℕ, zero, suc, ◌+◌}
use Prim.Native.String.{String}
use mathlib.Core.Path.{◌≡◌, refl, ap₂, ◌∙◌}
use mathlib.Core.Logic.{∥∥₁_elim}
use mathlib.Core.Bool.{Bool, true, false, ◌&&◌, ◌||◌, not, Bool-set}
use mathlib.Core.Option.{Option, none, some}
use mathlib.Core.List.{List, [], ◌∷◌, ◌++◌, Perm, Permᴰ}
use native.Mathlib.Omega.{arith}
use text.Mathlib.Text.{◌==◌}
use agentic_design_harness.Common.Tests.{if◌then◌else◌}

module _ {ℓ} {A : Type ℓ} where
  abbrev pub length : List A → ℕ
  length [] = 0
  length (x ∷ xs) = suc (length xs)

  abbrev pub any : (A → Bool) → List A → Bool
  any p [] = false
  any p (x ∷ xs) = p x || any p xs

  abbrev pub all : (A → Bool) → List A → Bool
  all p [] = true
  all p (x ∷ xs) = p x && all p xs

  -- `xs[:n]`
  abbrev pub take : ℕ → List A → List A
  take zero xs = []
  take (suc n) [] = []
  take (suc n) (x ∷ xs) = x ∷ take n xs

  abbrev pub is_empty : List A → Bool
  is_empty [] = true
  is_empty (x ∷ xs) = false

  -- `[y for x in xs for y in f(x)]`
  abbrev pub flat_map {κ} : {B : Type κ} → (A → List B) → List A → List B
  flat_map f [] = []
  flat_map f (x ∷ xs) = f x ++ flat_map f xs

  -- `next((x for x in xs if p(x)), None)`
  abbrev pub find? : (A → Bool) → List A → Option A
  find? p [] = none
  find? p (x ∷ xs) = if p x then some x else find? p xs

  -- `[x for x in xs if p(x)]`
  abbrev pub keep : (A → Bool) → List A → List A
  keep p [] = []
  keep p (x ∷ xs) = let rest = keep p xs in if p x then x ∷ rest else rest

  abbrev pub count : (A → Bool) → List A → ℕ
  count p [] = 0
  count p (x ∷ xs) = let rest = count p xs in if p x then suc rest else rest

  abbrev pub sum_by : (A → ℕ) → List A → ℕ
  sum_by f [] = 0
  sum_by f (x ∷ xs) = f x + sum_by f xs

  abbrev pub All {κ} : (A → Type κ) → List A → Type κ
  All P [] = Unit
  All P (x ∷ xs) = P x × All P xs

  pub sum_by-append : (f : A → ℕ) (xs ys : List A) → sum_by f (xs ++ ys) ≡ sum_by f xs + sum_by f ys
  sum_by-append f [] ys = omega arith
  sum_by-append f (x ∷ xs) ys = omega (arith, sum_by-append f xs ys)

  pub All-append {κ} : (P : A → Type κ) (xs ys : List A) → All P xs → All P ys → All P (xs ++ ys)
  All-append P [] ys h k = k
  All-append P (x ∷ xs) ys h k = (h.0, All-append P xs ys h.1 k)

module _ {ℓ} {A : Type ℓ} (p : A → Bool) where
  pub any-false : (xs : List A) → any p xs ≡ false → All (λ x. p x ≡ false) xs
  any-false [] h = tt
  any-false (x ∷ xs) h = (ground arith, any-false xs (ground arith))

  pub any-false_of : (xs : List A) → All (λ x. p x ≡ false) xs → any p xs ≡ false
  any-false_of [] h = refl
  any-false_of (x ∷ xs) h = rw h.0 (any-false_of xs h.1)

  pub all-true : (xs : List A) → all p xs ≡ true → All (λ x. p x ≡ true) xs
  all-true [] h = tt
  all-true (x ∷ xs) h = (ground arith, all-true xs (ground arith))

  pub all-true_of : (xs : List A) → All (λ x. p x ≡ true) xs → all p xs ≡ true
  all-true_of [] h = refl
  all-true_of (x ∷ xs) h = rw h.0 (all-true_of xs h.1)

  any-permᴰ : {xs ys : List A} → Permᴰ xs ys → any p xs ≡ any p ys
  any-permᴰ Permᴰ.nil = refl
  any-permᴰ (Permᴰ.cons e r) = ap₂ (λ a b. p a || b) e (any-permᴰ r)
  any-permᴰ (Permᴰ.swap {a = a} {b = b} e f) = rw (← e, ← f) (ground arith)
  any-permᴰ (Permᴰ.trans r s) = any-permᴰ r ∙ any-permᴰ s

  all-permᴰ : {xs ys : List A} → Permᴰ xs ys → all p xs ≡ all p ys
  all-permᴰ Permᴰ.nil = refl
  all-permᴰ (Permᴰ.cons e r) = ap₂ (λ a b. p a && b) e (all-permᴰ r)
  all-permᴰ (Permᴰ.swap {a = a} {b = b} e f) = rw (← e, ← f) (ground arith)
  all-permᴰ (Permᴰ.trans r s) = all-permᴰ r ∙ all-permᴰ s

  pub any-perm : {xs ys : List A} → Perm xs ys → any p xs ≡ any p ys
  any-perm r = ∥∥₁_elim r (Bool-set _ _) any-permᴰ

  pub all-perm : {xs ys : List A} → Perm xs ys → all p xs ≡ all p ys
  all-perm r = ∥∥₁_elim r (Bool-set _ _) all-permᴰ

  module _ (q : A → Bool) where
    -- `all(p(x) for x in xs if q(x))` is one test of every element.
    pub all-keep : (xs : List A) → all p (keep q xs) ≡ all (λ x. not (q x) || p x) xs
    all-keep [] = refl
    all-keep (x ∷ xs) = ground (arith, all-keep xs)

-- `x in xs`
abbrev pub elem : String → List String → Bool
elem k [] = false
elem k (x ∷ xs) = (k == x) || elem k xs

-- `set(xs).issubset(ys)`
abbrev pub subset : List String → List String → Bool
subset xs ys = all (λ x. elem x ys) xs

-- `len(set(xs)) == len(xs)`
abbrev pub distinct : List String → Bool
distinct [] = true
distinct (x ∷ xs) = if elem x xs then false else distinct xs
