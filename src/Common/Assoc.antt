-- ===== src/Common/Assoc.antt =====
-- Python's dict with text keys: insertion order, a repeated key keeps its place.
use Prim.Native.String.{String}
use mathlib.Core.Path.{◌≡◌, refl, sym, ◌∙◌}
use mathlib.Core.Option.{Option, none, some}
use mathlib.Core.List.{List, [], ◌∷◌, map, Memᴰ}
use native.Mathlib.Omega.{arith}
use text.Mathlib.Text.{◌==◌}
use text.Mathlib.TextEquality.{eq_iff}
use agentic_design_harness.Common.Tests.{if◌then◌else◌, Bool-cases}
use agentic_design_harness.Common.Lists.{elem, distinct}
use mathlib.Core.Logic.{◌⊎◌, inl, inr}
use mathlib.Core.Bool.{true, false}

abbrev pub Dict {ℓ} : Type ℓ → Type ℓ
Dict V = List (String × V)

module _ {ℓ} {V : Type ℓ} where
  -- `d.get(k)`
  unfoldable pub lookup : String → Dict V → Option V
  lookup k [] = none
  lookup k ((j, v) ∷ d) = if k == j then some v else lookup k d

  -- `d[k] = v`
  unfoldable pub insert : String → V → Dict V → Dict V
  insert k v [] = (k, v) ∷ []
  insert k v ((j, w) ∷ d) = if k == j then (j, v) ∷ d else (j, w) ∷ insert k v d

  -- `d.pop(k, None)`
  unfoldable pub erase : String → Dict V → Dict V
  erase k [] = []
  erase k ((j, w) ∷ d) = let rest = erase k d in if k == j then rest else (j, w) ∷ rest

  -- `list(d.values())`
  unfoldable pub values : Dict V → List V
  values [] = []
  values ((_, v) ∷ d) = v ∷ values d

  -- `{key(x): x for x in xs}`
  unfoldable pub index_onto : (V → String) → Dict V → List V → Dict V
  index_onto key d [] = d
  index_onto key d (x ∷ xs) = index_onto key (insert (key x) x d) xs

  unfoldable pub index_by : (V → String) → List V → Dict V
  unfolding index_onto
  index_by key xs = index_onto key [] xs

  pub lookup-insert :
      (j k : String) (v : V) (d : Dict V)
      → lookup j (insert k v d) ≡ (if j == k then some v else lookup j d)
  unfolding lookup insert
  lookup-insert j k v [] = refl
  lookup-insert j k v ((i, w) ∷ d) =
      ground (arith, eq_iff j k, eq_iff k i, eq_iff j i, lookup-insert j k v d)

  pub lookup-erase :
      (j k : String) (d : Dict V) → lookup j (erase k d) ≡ (if j == k then none else lookup j d)
  unfolding lookup erase
  lookup-erase j k [] = ground arith
  lookup-erase j k ((i, w) ∷ d) =
      ground (arith, eq_iff j k, eq_iff k i, eq_iff j i, lookup-erase j k d)

module _ {ℓ} {V : Type ℓ} (key : V → String) where
  pub lookup-index_onto_absent :
      (k : String) (d : Dict V) (xs : List V)
      → elem k (map key xs) ≡ false
      → lookup k (index_onto key d xs) ≡ lookup k d
  unfolding index_onto
  lookup-index_onto_absent k d [] h = refl
  lookup-index_onto_absent k d (x ∷ xs) h =
      ground
        (arith, lookup-index_onto_absent k (insert (key x) x d) xs, lookup-insert k (key x) x d)

  lookup-index_onto_mem :
      (d : Dict V) (x : V) (xs : List V)
      → distinct (map key xs) ≡ true
      → Memᴰ x xs
      → lookup (key x) (index_onto key d xs) ≡ some x
  unfolding index_onto
  lookup-index_onto_mem d x [] h m = elim m [ ]
  lookup-index_onto_mem d x (y ∷ xs) h (Memᴰ.head e) = rw e (
      ground (
        arith,
        eq_iff (key y) (key y),
        lookup-index_onto_absent (key y) (insert (key y) y d) xs,
        lookup-insert (key y) (key y) y d,
      ))
  lookup-index_onto_mem d x (y ∷ xs) h (Memᴰ.tail m) =
      lookup-index_onto_mem (insert (key y) y d) x xs (ground arith) m

  -- Where the keys differ, the dictionary finds each value under its key.
  pub lookup-index_by :
      (x : V) (xs : List V)
      → distinct (map key xs) ≡ true
      → Memᴰ x xs
      → lookup (key x) (index_by key xs) ≡ some x
  unfolding index_by
  lookup-index_by = lookup-index_onto_mem []

  lookup-index_onto_sound :
      (k : String) (d : Dict V) (xs : List V) {v : V}
      → lookup k (index_onto key d xs) ≡ some v
      → (lookup k d ≡ some v) ⊎ (Memᴰ v xs × (key v ≡ k))
  unfolding index_onto
  lookup-index_onto_sound k d [] h = inl h
  lookup-index_onto_sound k d (x ∷ xs) {v} h =
      elim (lookup-index_onto_sound k (insert (key x) x d) xs h) [
        | inl e ↦ at_head (Bool-cases (k == key x)) (lookup-insert k (key x) x d ∙ refl) e
        | inr (m, e) ↦ inr (Memᴰ.tail m, e)
      ]
    where
      at_head :
          (k == key x ≡ true) ⊎ (k == key x ≡ false)
          → lookup k (insert (key x) x d) ≡ (if k == key x then some x else lookup k d)
          → lookup k (insert (key x) x d) ≡ some v
          → (lookup k d ≡ some v) ⊎ (Memᴰ v (x ∷ xs) × (key v ≡ k))
      at_head (inl t) e f =
          let w : x ≡ v = ground arith in
          inr (Memᴰ.head (sym w), rw (← w) (sym ((eq_iff k (key x)).0 t)))
      at_head (inr t) e f = inl (ground arith)

  -- What the dictionary finds under a key is one of the values, and has that key.
  pub lookup-index_by_sound :
      (k : String) (xs : List V) {v : V}
      → lookup k (index_by key xs) ≡ some v
      → Memᴰ v xs × (key v ≡ k)
  unfolding index_by lookup
  lookup-index_by_sound k xs h = elim (lookup-index_onto_sound k [] xs h) [
    | inl e ↦ absurd (ground arith)
    | inr m ↦ m
  ]

  -- It finds nothing under a key that no value has.
  pub lookup-index_by_absent :
      (k : String) (xs : List V) → elem k (map key xs) ≡ false → lookup k (index_by key xs) ≡ none
  unfolding index_by lookup
  lookup-index_by_absent k xs h = lookup-index_onto_absent k [] xs h
