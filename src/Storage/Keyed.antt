-- ===== src/Storage/Keyed.antt =====
-- Files and dictionaries under a key of two texts, the type and the id of an object.
use agentic_design_harness.Common.{
  if◌then◌else◌, String, ◌≡◌, refl, ◌↔◌, Bool, true, ◌&&◌, Option, none, some, List, [], ◌∷◌, arith,
  ◌==◌, eq_iff,
}

pub record Key : Type 0 where
  pub object_type : String
  pub object_id : String

unfoldable pub same_key : Key → Key → Bool
same_key j k = (j.object_type == k.object_type) && (j.object_id == k.object_id)

pub same_key_iff : (j k : Key) → (same_key j k ≡ true) ↔ (j ≡ k)
unfolding same_key
same_key_iff j k = (
  λ h. ground (arith, eq_iff j.object_type k.object_type, eq_iff j.object_id k.object_id),
  λ e. rw e (ground (arith, eq_iff k.object_type k.object_type, eq_iff k.object_id k.object_id)),
)

abbrev pub Table {ℓ} : Type ℓ → Type ℓ
Table V = List (Key × V)

module _ {ℓ} {V : Type ℓ} where
  unfoldable pub find : Key → Table V → Option V
  find k [] = none
  find k ((j, v) ∷ t) = if same_key k j then some v else find k t

  unfoldable pub put : Key → V → Table V → Table V
  put k v [] = (k, v) ∷ []
  put k v ((j, w) ∷ t) = if same_key k j then (j, v) ∷ t else (j, w) ∷ put k v t

  unfoldable pub drop : Key → Table V → Table V
  drop k [] = []
  drop k ((j, w) ∷ t) = let rest = drop k t in if same_key k j then rest else (j, w) ∷ rest

  pub find-put :
      (j k : Key) (v : V) (t : Table V)
      → find j (put k v t) ≡ (if same_key j k then some v else find j t)
  unfolding find put
  find-put j k v [] = refl
  find-put j k v ((i, w) ∷ t) =
      ground (arith, same_key_iff j k, same_key_iff k i, same_key_iff j i, find-put j k v t)

  pub find-drop :
      (j k : Key) (t : Table V) → find j (drop k t) ≡ (if same_key j k then none else find j t)
  unfolding find drop
  find-drop j k [] = ground arith
  find-drop j k ((i, w) ∷ t) =
      ground (arith, same_key_iff j k, same_key_iff k i, same_key_iff j i, find-drop j k t)

  -- No key stands twice.
  abbrev pub NodupKeys : Table V → Type ℓ
  NodupKeys [] = Unit
  NodupKeys ((k, _) ∷ t) = (find k t ≡ none) × NodupKeys t

  pub put-NodupKeys : (k : Key) (v : V) (t : Table V) → NodupKeys t → NodupKeys (put k v t)
  unfolding put find
  put-NodupKeys k v [] h = (refl, tt)
  put-NodupKeys k v ((j, w) ∷ t) h =
      ground (arith, same_key_iff k j, same_key_iff j k, put-NodupKeys k v t h.1, find-put j k v t)

  pub drop-NodupKeys : (k : Key) (t : Table V) → NodupKeys t → NodupKeys (drop k t)
  unfolding drop
  drop-NodupKeys k [] h = tt
  drop-NodupKeys k ((j, w) ∷ t) h = ground (arith, drop-NodupKeys k t h.1, find-drop j k t)
