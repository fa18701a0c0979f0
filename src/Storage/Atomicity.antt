-- ===== src/Storage/Atomicity.antt =====
-- backend/harness/storage/repository.py and store.py: a write takes effect with its event.
pub mod Write
pub mod Crash
pub mod Removal
pub mod History
use agentic_design_harness.Common.{
  if◌then◌else◌, ℕ, ◌≤◌, max, String, ◌≡◌, refl, ◌⊎◌, inl, inr, Bool, Option, none, some, List, [],
  ◌∷◌, ◌++◌, Memᴰ, arith,
}
use agentic_design_harness.Storage.{Key, find, Event, Content, Directory, commits}
use agentic_design_harness.Storage.Repository.{revision, newest_revision}
use agentic_design_harness.Storage.Recovery.{prefer}
use agentic_design_harness.Storage.Recovery.Newest.{newest_onto, newest}
use agentic_design_harness.Storage.Recovery.Agreement.{IsRecoverable, journal_content}

module _ {P R : Type 0} where
  newest_onto-append :
      (k : Key) (acc : Option (Event P R)) (es : List (Event P R)) (e : Event P R)
      → newest_onto k acc (es ++ e ∷ [])
        ≡ (if commits k e then some (prefer (newest_onto k acc es) e) else newest_onto k acc es)
  unfolding newest_onto
  newest_onto-append k acc [] e = refl
  newest_onto-append k acc (d ∷ es) e =
      newest_onto-append k (if commits k d then some (prefer acc d) else acc) es e

  pub newest-append :
      (k : Key) (es : List (Event P R)) (e : Event P R)
      → newest k (es ++ e ∷ [])
        ≡ (if commits k e then some (prefer (newest k es) e) else newest k es)
  newest-append k = newest_onto-append k none

  abbrev revision_in : Option (Event P R) → ℕ
  revision_in none = 0
  revision_in (some e) = e.revision

  newest_onto-le :
      (k : Key) (acc : Option (Event P R)) (es : List (Event P R))
      → revision_in (newest_onto k acc es) ≤ max (revision_in acc) (newest_revision k es)
  unfolding newest_onto newest_revision prefer
  newest_onto-le k acc [] = omega arith
  newest_onto-le k none (e ∷ es) =
      ground (arith, newest_onto-le k (some e) es, newest_onto-le k none es)
  newest_onto-le k (some d) (e ∷ es) =
      ground (arith, newest_onto-le k (some e) es, newest_onto-le k (some d) es)

  -- No event of an object is newer than the greatest revision among them.
  pub newest-le :
      (k : Key) (es : List (Event P R)) (e : Event P R)
      → newest k es ≡ some e
      → e.revision ≤ newest_revision k es
  newest-le k es e h = ground (arith, newest_onto-le k none es)

-- A directory between two operations: each file is the one that the journal calls for. A file that
-- the journal calls for may be gone, since `delete` removes files.
pub record IsCurrent {P R : Type 0} (known : String → Bool) (dir : Directory P R) : Type 0 where
  pub recoverable : IsRecoverable known dir
  pub current :
      (k : Key) (c : Content P) → find k dir.files ≡ some c → journal_content k dir.events ≡ some c

pub mem-append_one {ℓ} :
    {A : Type ℓ} (x y : A) (xs : List A) → Memᴰ x (xs ++ y ∷ []) → Memᴰ x xs ⊎ (x ≡ y)
mem-append_one x y [] (Memᴰ.head e) = inr e
mem-append_one x y [] (Memᴰ.tail m) = elim m [ ]
mem-append_one x y (z ∷ xs) (Memᴰ.head e) = inl (Memᴰ.head e)
mem-append_one x y (z ∷ xs) (Memᴰ.tail m) = elim (mem-append_one x y xs m) [
  | inl h ↦ inl (Memᴰ.tail h)
  | inr e ↦ inr e
]
