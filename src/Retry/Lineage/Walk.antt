-- ===== src/Retry/Lineage/Walk.antt =====
-- backend/harness/services/retry_lineage.py: the walk to the root of a retry ends.
use agentic_design_harness.Common.{
  Bool-cases, is_some, Option-cases, length, count, All, elem, Dict, lookup, insert, index_onto,
  index_by, ℕ, zero, suc, ◌≤◌, ◌<◌, String, ◌≡◌, refl, sym, subst, ◌≢◌, inl, inr, true, false, not,
  none, some, List, [], ◌∷◌, arith, ◌==◌, eq_iff,
}
use agentic_design_harness.Retry.Lineage.{Link, lineage_root, rounds}

-- The entries of a dictionary whose attempt has not been visited.
abbrev unvisited : List String → Dict Link → ℕ
unvisited visited = count (λ (e : String × Link). not (elem e.0 visited))

-- Each attempt is stored under its own id.
abbrev KeyedById : Dict Link → Type 0
KeyedById = All (λ (e : String × Link). e.1.attempt_id ≡ e.0)

unvisited-le_cons :
    (k : String) (visited : List String) (d : Dict Link)
    → unvisited (k ∷ visited) d ≤ unvisited visited d
unvisited-le_cons k visited [] = omega arith
unvisited-le_cons k visited (e ∷ d) = ground (arith, unvisited-le_cons k visited d)

-- A visit of an attempt that was not visited before.
unvisited-lt_cons :
    (k : String) (visited : List String) (d : Dict Link)
    → elem k visited ≡ false
    → is_some (lookup k d) ≡ true
    → unvisited (k ∷ visited) d < unvisited visited d
unfolding lookup
unvisited-lt_cons k visited [] n h = cc
unvisited-lt_cons k visited ((j, l) ∷ d) n h =
    ground
      (arith, eq_iff k j, eq_iff j k, unvisited-le_cons k visited d, unvisited-lt_cons k visited d)

lookup-KeyedById :
    (k : String) (d : Dict Link) (l : Link) → KeyedById d → lookup k d ≡ some l → l.attempt_id ≡ k
unfolding lookup
lookup-KeyedById k [] l h e = cc
lookup-KeyedById k ((j, m) ∷ d) l h e = ground (arith, eq_iff k j, h.0, lookup-KeyedById k d l h.1)

unvisited-le_length : (visited : List String) (d : Dict Link) → unvisited visited d ≤ length d
unvisited-le_length visited [] = omega arith
unvisited-le_length visited (e ∷ d) = ground (arith, unvisited-le_length visited d)

-- From an attempt of the dictionary the loop ends once it has as many rounds as there are attempts
-- that it has not visited, and one more.
lineage_root-ends_within :
    (fuel : ℕ) (d : Dict Link) (visited : List String) (current : Link)
    → KeyedById d
    → lookup current.attempt_id d ≡ some current
    → unvisited visited d < fuel
    → lineage_root fuel d visited current ≢ none
unfolding lineage_root
lineage_root-ends_within zero d visited current h m f e = absurd (omega arith)
lineage_root-ends_within (suc fuel) d visited current h m f e =
    elim (Option-cases (lookup current.retry_of_attempt_id d)) [
      | inl last ↦ ground (arith, last, e)
      | inr (l, found) ↦ elim (Bool-cases (elem current.attempt_id visited)) [
        | inl seen ↦ ground (arith, seen, e)
        | inr new ↦
            let own : l.attempt_id ≡ current.retry_of_attempt_id =
              lookup-KeyedById current.retry_of_attempt_id d l h found in
            let there : lookup l.attempt_id d ≡ some l =
              subst (λ (k : String). lookup k d ≡ some l) (sym own) found in
            let fewer : unvisited (current.attempt_id ∷ visited) d < unvisited visited d =
              unvisited-lt_cons current.attempt_id visited d new (rw m refl) in
            let less : unvisited (current.attempt_id ∷ visited) d < fuel =
              omega (arith, fewer, f) in
            lineage_root-ends_within fuel d (current.attempt_id ∷ visited) l h there less
              (ground (arith, found, new, e))
      ]
    ]

insert-KeyedById : (l : Link) (d : Dict Link) → KeyedById d → KeyedById (insert l.attempt_id l d)
unfolding insert
insert-KeyedById l [] h = (refl, tt)
insert-KeyedById l ((j, m) ∷ d) h = elim (Bool-cases (l.attempt_id == j)) [
  | inl t ↦ rw t ((eq_iff l.attempt_id j).0 t, h.1)
  | inr f ↦ rw f (h.0, insert-KeyedById l d h.1)
]

index_onto-KeyedById :
    (ls : List Link) (d : Dict Link)
    → KeyedById d
    → KeyedById (index_onto (λ (l : Link). l.attempt_id) d ls)
unfolding index_onto
index_onto-KeyedById [] d h = h
index_onto-KeyedById (l ∷ ls) d h =
    index_onto-KeyedById ls (insert l.attempt_id l d) (insert-KeyedById l d h)

abbrev pub by_id : List Link → Dict Link
by_id ls = index_by (λ (l : Link). l.attempt_id) ls

index_by-KeyedById : (ls : List Link) → KeyedById (by_id ls)
unfolding index_by
index_by-KeyedById ls = index_onto-KeyedById ls [] tt

-- Whatever attempts are stored, also where their links run in a circle, the walk from one of them
-- ends within the rounds it is given: with a root or with an error.
pub lineage_root-ends :
    (attempts : List Link) (retry_of : String) (parent : Link)
    → lookup retry_of (by_id attempts) ≡ some parent
    → lineage_root (rounds (by_id attempts)) (by_id attempts) [] parent ≢ none
lineage_root-ends attempts retry_of parent h =
    let d : Dict Link = by_id attempts in
    let own : parent.attempt_id ≡ retry_of =
      lookup-KeyedById retry_of d parent (index_by-KeyedById attempts) h in
    lineage_root-ends_within (rounds d) d [] parent (index_by-KeyedById attempts)
      (subst (λ (k : String). lookup k d ≡ some parent) (sym own) h)
      (omega (arith, unvisited-le_length [] d))
