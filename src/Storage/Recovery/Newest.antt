-- ===== src/Storage/Recovery/Newest.antt =====
-- backend/harness/storage/store.py: the table of newest events that `recover` collects.
use agentic_design_harness.Common.{
  if◌then◌else◌, Bool-cases, ◌≡◌, refl, sym, ap, ◌∙◌, subst, ◌⊎◌, inl, inr, Bool, true, false,
  Option, none, some, List, [], ◌∷◌, Memᴰ, arith,
}
use agentic_design_harness.Storage.{
  Table, Key, same_key_iff, find-put, NodupKeys, put-NodupKeys, same_key, find, Event, is_committed,
  key_of, commits,
}
use agentic_design_harness.Storage.Recovery.{prefer, note_event, collect, latest_events}

module _ {P R : Type 0} where
  -- The newest committed event of an object, and the first one of that revision.
  unfoldable pub newest_onto : Key → Option (Event P R) → List (Event P R) → Option (Event P R)
  newest_onto k acc [] = acc
  newest_onto k acc (e ∷ es) = newest_onto k (if commits k e then some (prefer acc e) else acc) es

  abbrev pub newest : Key → List (Event P R) → Option (Event P R)
  newest k = newest_onto k none

  find-note_event :
      (k : Key) (latest : Table (Event P R)) (e : Event P R)
      → find k (note_event latest e)
        ≡ (if commits k e then some (prefer (find k latest) e) else find k latest)
  unfolding note_event
  find-note_event k latest e = elim (Bool-cases (same_key k (key_of e))) [
    | inl s ↦
        let here : k ≡ key_of e = (same_key_iff k (key_of e)).0 s in
        ground (arith, find-put k (key_of e) (prefer (find (key_of e) latest) e) latest)
    | inr s ↦ ground (arith, find-put k (key_of e) (prefer (find (key_of e) latest) e) latest)
  ]

  find-collect :
      (k : Key) (latest : Table (Event P R)) (es : List (Event P R))
      → find k (collect latest es) ≡ newest_onto k (find k latest) es
  unfolding collect newest_onto
  find-collect k latest [] = refl
  find-collect k latest (e ∷ es) =
      find-collect k (note_event latest e) es
      ∙ ap (λ acc. newest_onto k acc es) (find-note_event k latest e)

  pub find-latest_events :
      (k : Key) (es : List (Event P R)) → find k (latest_events es) ≡ newest k es
  unfolding latest_events find
  find-latest_events k es = find-collect k [] es

  collect-NodupKeys :
      (latest : Table (Event P R)) (es : List (Event P R))
      → NodupKeys latest
      → NodupKeys (collect latest es)
  unfolding collect note_event
  collect-NodupKeys latest [] h = h
  collect-NodupKeys latest (e ∷ es) h =
      collect-NodupKeys (note_event latest e) es (noted (is_committed e.event_type) refl)
    where
      noted : (b : Bool) → is_committed e.event_type ≡ b → NodupKeys (note_event latest e)
      noted true c = rw c (put-NodupKeys (key_of e) (prefer (find (key_of e) latest) e) latest h)
      noted false c = rw c h

  pub latest_events-NodupKeys : (es : List (Event P R)) → NodupKeys (latest_events es)
  unfolding latest_events
  latest_events-NodupKeys es = collect-NodupKeys [] es tt

  prefer-or :
      (acc : Option (Event P R)) (e : Event P R) → (some (prefer acc e) ≡ acc) ⊎ (prefer acc e ≡ e)
  unfolding prefer
  prefer-or none e = inr refl
  prefer-or (some old) e = ground arith

  newest_onto-source :
      (k : Key) (acc : Option (Event P R)) (es : List (Event P R)) (e : Event P R)
      → newest_onto k acc es ≡ some e
      → (acc ≡ some e) ⊎ (Memᴰ e es × (commits k e ≡ true))
  unfolding newest_onto
  newest_onto-source k acc [] e h = inl h
  newest_onto-source k acc (d ∷ es) e h =
      elim (newest_onto-source k (if commits k d then some (prefer acc d) else acc) es e h) [
        | inl a ↦ elim (Bool-cases (commits k d)) [
          | inl c ↦ elim (prefer-or acc d) [
            | inl p ↦ inl (ground arith)
            | inr p ↦
                let same : d ≡ e = ground arith in
                inr (Memᴰ.head (sym same), subst (λ x. commits k x ≡ true) same c)
          ]
          | inr c ↦ inl (ground arith)
        ]
        | inr (m, c) ↦ inr (Memᴰ.tail m, c)
      ]

  -- The newest event of an object is one of the journal's, and commits that object.
  pub newest-source :
      (k : Key) (es : List (Event P R)) (e : Event P R)
      → newest k es ≡ some e
      → Memᴰ e es × (commits k e ≡ true)
  newest-source k es e h = elim (newest_onto-source k none es e h) [ inl a ↦ cc | inr s ↦ s ]
