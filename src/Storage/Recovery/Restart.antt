-- ===== src/Storage/Recovery/Restart.antt =====
-- backend/harness/storage/store.py: the repair ends, and restores what the journal calls for.
use agentic_design_harness.Common.{
  if◌then◌else◌, is_some, all, ok, String, ◌≡◌, refl, sym, ◌∙◌, subst, Bool, true, false, Option,
  none, some, List, [], ◌∷◌, ◌++◌, arith,
}
use agentic_design_harness.Storage.{
  Table, Key, same_key_iff, find-put, NodupKeys, put-NodupKeys, same_key, find, put, Wrapper, Event,
  Content, readable,
}
use agentic_design_harness.Storage.Recovery.{repair_one, repair_all, check_files}
use agentic_design_harness.Storage.Recovery.Agreement.{Behind, content_of, repair_lem}

-- What one round needs of its entry.
pub record Ready {P R : Type 0} (known : String → Bool) (found : Option (Content P)) (k : Key)
    (e : Event P R) : Type 0 where
  pub behind : Behind found e
  pub wrapper : Wrapper P
  pub carried : e.snapshot ≡ some wrapper
  pub is_known : known k.object_type ≡ true

-- The files after the loop over the newest events `l`.
abbrev pub repaired : {P R : Type 0} → Option (Event P R) → Option (Content P) → Option (Content P)
repaired none old = old
repaired (some e) old = content_of e.snapshot

module _ {P R : Type 0} (k : Key) (e : Event P R) (l : Table (Event P R))
    (fresh : find k l ≡ none) where
  apart : (j : Key) {d : Event P R} → find j l ≡ some d → same_key j k ≡ false
  apart j p = ground (arith, same_key_iff j k)

  still_found : (j : Key) {d : Event P R} → find j l ≡ some d → find j ((k, e) ∷ l) ≡ some d
  unfolding find
  still_found j p = rw (apart j p) p

  ready_rest :
      (known : String → Bool) (files : Table (Content P)) (w : Wrapper P)
      → ((j : Key) (d : Event P R) → find j ((k, e) ∷ l) ≡ some d → Ready known (find j files) j d)
      → (j : Key) (d : Event P R) → find j l ≡ some d
      → Ready known (find j (put k (readable w) files)) j d
  ready_rest known files w r j d p =
      let same_file : find j (put k (readable w) files) ≡ find j files =
        ground (arith, find-put j k (readable w) files, apart j p) in
      subst (λ c. Ready known c j d) (sym same_file) (r j d (still_found j p))

  repaired_step :
      (files : Table (Content P)) (w : Wrapper P) (j : Key)
      → e.snapshot ≡ some w
      → repaired (find j l) (find j (put k (readable w) files))
        ≡ repaired (find j ((k, e) ∷ l)) (find j files)
  unfolding find
  repaired_step files w j h =
      ground (arith, same_key_iff j k, find-put j k (readable w) files, fresh)

module _ {P : Type 0} (same : P → P → Bool) (sound : (a b : P) → same a b ≡ true → a ≡ b)
    (known : String → Bool) where
  repair_one_lem :
      {R : Type 0} (k : Key) (e : Event P R) (files : Table (Content P)) (warnings : List Key)
      → (r : Ready known (find k files) k e)
      → (ws : List Key) × (repair_one known same k e (files, warnings)
          ≡ ok (put k (readable r.wrapper) files, ws))
  unfolding repair_one
  repair_one_lem k e files warnings r =
      let (warned, h) = repair_lem same sound (find k files) e r.wrapper r.behind in
      ((if warned then warnings ++ k ∷ [] else warnings), ground (arith, r.is_known, r.carried, h))

  pub repair_all_lem :
      {R : Type 0} (l : Table (Event P R)) (files : Table (Content P)) (warnings : List Key)
      → NodupKeys l
      → NodupKeys files
      → ((k : Key) (e : Event P R) → find k l ≡ some e → Ready known (find k files) k e)
      → (files' : Table (Content P)) × (ws : List Key) × (repair_all known same l (files, warnings)
          ≡ ok (files', ws))
        × NodupKeys files'
        × ((j : Key) → find j files' ≡ repaired (find j l) (find j files))
  unfolding repair_all find
  repair_all_lem [] files warnings n f r = (files, warnings, refl, f, λ j. refl)
  repair_all_lem ((k, e) ∷ l) files warnings n f r =
      let here : find k ((k, e) ∷ l) ≡ some e = ground (arith, same_key_iff k k) in
      let one = r k e here in
      let (ws, h) = repair_one_lem k e files warnings one in
      let (files', ws', g, f', all) =
        repair_all_lem l (put k (readable one.wrapper) files) ws n.1
          (put-NodupKeys k (readable one.wrapper) files f)
          (ready_rest k e l n.0 known files one.wrapper r) in
      (
        files',
        ws',
        ground (arith, h, g),
        f',
        λ j. all j ∙ repaired_step k e l n.0 files one.wrapper j one.carried,
      )

-- A table of readable files, each under its own key and with an event, passes the last check.
pub check_files_lem :
    {P R : Type 0} (latest : Table (Event P R)) (files : Table (Content P))
    → NodupKeys files
    → ((k : Key) (c : Content P)
        → find k files ≡ some c
        → (w : Wrapper P) × (c ≡ readable w)
          × (is_some (find (record { object_type = w.object_type; object_id = w.object_id }) latest)
              ≡ true))
    → check_files latest files ≡ ok tt
unfolding check_files find
check_files_lem latest [] n h = refl
check_files_lem latest ((k, c) ∷ files) n h =
    let (w, e, i) = h k c (ground (arith, same_key_iff k k)) in
    let rest =
      check_files_lem latest files n.1
        (λ j d p. h j d (ground (arith, same_key_iff j k, n.0, p))) in
    rw (e, check_files) (rw (i) rest)
