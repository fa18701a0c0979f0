-- ===== src/Commands/Projections/Files.antt =====
-- backend/harness/storage/store.py: what is found under an id after projections were put and retired.
use agentic_design_harness.Common.{
  if◌then◌else◌, Bool-cases, is_some, Option-cases, elem, lookup-insert, lookup-erase,
  lookup-index_by_absent, lookup-index_onto_absent, Dict, lookup, insert, erase, index_onto,
  index_by, String, ◌≡◌, refl, sym, ap, ◌∙◌, inl, inr, Bool, true, false, ◌&&◌, not, none, some,
  List, [], ◌∷◌, map, arith, ◌==◌, eq_iff,
}
use agentic_design_harness.Commands.Projections.{put_changed, put_each, absent_ids, erase_each}

module _ {V : Type 0} (same : V → V → Bool) (key : V → String)
    (sound : (a b : V) → same a b ≡ true → a ≡ b) where
  lookup-put_changed :
      (k : String) (x : V) (d : Dict V)
      → lookup k (put_changed same key x d) ≡ lookup k (insert (key x) x d)
  unfolding put_changed
  lookup-put_changed k x d = elim (Option-cases (lookup (key x) d)) [
    | inl n ↦ rw n refl
    | inr (y, e) ↦ elim (Bool-cases (same y x)) [
      | inl t ↦
          rw (e, t) (ground (arith, lookup-insert k (key x) x d, eq_iff k (key x), e, sound y x t))
      | inr f ↦ rw (e, f) refl
    ]
  ]

  lookup-put_each :
      (k : String) (xs : List V) (d e : Dict V)
      → lookup k d ≡ lookup k e
      → lookup k (put_each same key d xs) ≡ lookup k (index_onto key e xs)
  unfolding put_each index_onto
  lookup-put_each k [] d e h = h
  lookup-put_each k (x ∷ xs) d e h =
      lookup-put_each k xs (put_changed same key x d) (insert (key x) x e) (
        lookup-put_changed k x d
        ∙ lookup-insert k (key x) x d
        ∙ ap (λ o. if k == key x then some x else o) h
        ∙ sym (lookup-insert k (key x) x e))

  -- What is under an id of the list does not depend on what was there before.
  lookup-index_onto-elem :
      (k : String) (xs : List V) (d e : Dict V)
      → elem k (map key xs) ≡ true
      → lookup k (index_onto key d xs) ≡ lookup k (index_onto key e xs)
  unfolding index_onto
  lookup-index_onto-elem k [] d e h = cc
  lookup-index_onto-elem k (x ∷ xs) d e h = elim (Bool-cases (elem k (map key xs))) [
    | inl t ↦ lookup-index_onto-elem k xs (insert (key x) x d) (insert (key x) x e) t
    | inr f ↦
        lookup-index_onto_absent key k (insert (key x) x d) xs f
        ∙ ground (arith, lookup-insert k (key x) x d, lookup-insert k (key x) x e, f, h)
        ∙ sym (lookup-index_onto_absent key k (insert (key x) x e) xs f)
  ]

  -- Where nothing else was there, the projections that were put are those of the list.
  pub lookup-projected :
      (k : String) (xs : List V) (d : Dict V)
      → (elem k (map key xs) ≡ false → lookup k d ≡ none)
      → lookup k (put_each same key d xs) ≡ lookup k (index_by key xs)
  unfolding index_by lookup
  lookup-projected k xs d h = elim (Bool-cases (elem k (map key xs))) [
    | inl t ↦ lookup-put_each k xs d d refl ∙ lookup-index_onto-elem k xs d [] t
    | inr f ↦
        lookup-put_each k xs d d refl
        ∙ lookup-index_onto_absent key k d xs f
        ∙ h f
        ∙ sym (lookup-index_onto_absent key k [] xs f)
  ]

module _ {V : Type 0} where
  lookup-erase_each :
      (k : String) (ks : List String) (d : Dict V)
      → lookup k (erase_each d ks) ≡ (if elem k ks then none else lookup k d)
  unfolding erase_each
  lookup-erase_each k [] d = refl
  lookup-erase_each k (j ∷ ks) d =
      ground (arith, lookup-erase_each k ks (erase j d), lookup-erase k j d)

  elem-absent_ids :
      (k : String) (active : List String) (d : Dict V)
      → elem k (absent_ids active d) ≡ (not (elem k active) && is_some (lookup k d))
  unfolding absent_ids lookup
  elem-absent_ids k active [] = ground arith
  elem-absent_ids k active ((j, v) ∷ d) = ground (arith, eq_iff k j, elem-absent_ids k active d)

  -- What is left of a table whose absent ids were erased.
  pub lookup-retired :
      (k : String) (active : List String) (d : Dict V)
      → lookup k (erase_each d (absent_ids active d)) ≡ (if elem k active then lookup k d else none)
  lookup-retired k active d = ground (
    arith,
    lookup-erase_each k (absent_ids active d) d,
    elem-absent_ids k active d,
    Option-cases (lookup k d),
  )

module _ {V : Type 0} (same : V → V → Bool) (key : V → String)
    (sound : (a b : V) → same a b ≡ true → a ≡ b) where
  -- Putting and then retiring, and retiring and then putting, leave the projections of the list.
  pub lookup-put_retired :
      (k : String) (xs : List V) (d : Dict V)
      → let put = put_each same key d xs in
        lookup k (erase_each put (absent_ids (map key xs) put)) ≡ lookup k (index_by key xs)
  unfolding index_by
  lookup-put_retired k xs d =
      let put : Dict V = put_each same key d xs in
      elim (Bool-cases (elem k (map key xs))) [
        | inl t ↦
            lookup-retired k (map key xs) put
            ∙ ap (λ b. if b then lookup k put else none) t
            ∙ lookup-put_each same key sound k xs d d refl
            ∙ lookup-index_onto-elem same key sound k xs d [] t
        | inr f ↦
            lookup-retired k (map key xs) put
            ∙ ap (λ b. if b then lookup k put else none) f
            ∙ sym (lookup-index_by_absent key k xs f)
      ]

  pub lookup-retired_put :
      (k : String) (xs : List V) (d : Dict V)
      → lookup k (put_each same key (erase_each d (absent_ids (map key xs) d)) xs)
        ≡ lookup k (index_by key xs)
  lookup-retired_put k xs d =
      lookup-projected same key sound k xs (erase_each d (absent_ids (map key xs) d))
        (λ f. lookup-retired k (map key xs) d ∙ ap (λ b. if b then lookup k d else none) f)
