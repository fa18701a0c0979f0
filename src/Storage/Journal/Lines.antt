-- ===== src/Storage/Journal/Lines.antt =====
-- backend/harness/storage/ndjson.py: how the bytes of a journal fall into lines.
use agentic_design_harness.Common.{
  if◌then◌else◌, Bool-cases, is_empty, All, ℕ, ◌≡◌, refl, ap, inl, inr, true, false, ◌&&◌, ◌||◌,
  not, List, [], ◌∷◌, ◌++◌, arith,
}
use agentic_design_harness.Storage.Journal.{
  Bytes, is_newline, is_return, starts_with_newline, push, split_lines, is_complete, without_last,
}

abbrev pub Unbroken : Bytes → Type 0
Unbroken = All (λ c. is_newline c || is_return c ≡ false)

starts-append :
    (bs rest : Bytes)
    → Unbroken bs
    → starts_with_newline (bs ++ rest) ≡ (if is_empty bs then starts_with_newline rest else false)
starts-append [] rest h = refl
starts-append (c ∷ bs) rest h = ground (arith, h.0)

-- A line is split off at its line feed.
pub split_lines-line :
    (bs rest : Bytes)
    → Unbroken bs
    → split_lines (bs ++ b'\n' ∷ rest) ≡ (bs ++ b'\n' ∷ []) ∷ split_lines rest
unfolding split_lines
split_lines-line [] rest h = refl
split_lines-line (c ∷ bs) rest h =
    let ih = split_lines-line bs rest h.1 in
    let plain : is_newline c || is_return c && not (starts_with_newline (bs ++ b'\n' ∷ rest))
        ≡ false =
      ground (arith, h.0) in
    rw plain (rw ih refl)

pub split_lines-torn :
    (c : ℕ) (bs : Bytes) → Unbroken (c ∷ bs) → split_lines (c ∷ bs) ≡ (c ∷ bs) ∷ []
unfolding split_lines
split_lines-torn c [] h =
    let plain : is_newline c || is_return c && true ≡ false = ground (arith, h.0) in rw plain refl
split_lines-torn c (d ∷ bs) h =
    let ih = split_lines-torn d bs h.1 in
    let plain : is_newline c || is_return c && not (is_newline d) ≡ false = ground (arith, h.0) in
    rw plain (rw ih refl)

pub is_complete-line : (bs : Bytes) → is_complete (bs ++ b'\n' ∷ []) ≡ true
unfolding is_complete
is_complete-line [] = refl
is_complete-line (c ∷ []) = refl
is_complete-line (c ∷ d ∷ bs) = is_complete-line (d ∷ bs)

pub is_complete-torn : (bs : Bytes) → Unbroken bs → is_complete bs ≡ false
unfolding is_complete
is_complete-torn [] h = refl
is_complete-torn (c ∷ []) h = ground (arith, h.0)
is_complete-torn (c ∷ d ∷ bs) h = is_complete-torn (d ∷ bs) h.1

pub without_last-line : (bs : Bytes) → without_last (bs ++ b'\n' ∷ []) ≡ bs
unfolding without_last
without_last-line [] = refl
without_last-line (c ∷ []) = refl
without_last-line (c ∷ d ∷ bs) = ap (◌∷◌ c) (without_last-line (d ∷ bs))

pub split_lines-not_empty : (c : ℕ) (cs : Bytes) → is_empty (split_lines (c ∷ cs)) ≡ false
unfolding split_lines
split_lines-not_empty c cs =
    elim (Bool-cases (is_newline c || is_return c && not (starts_with_newline cs))) [
      | inl e ↦ rw e refl
      | inr e ↦ rw e (pushed (split_lines cs))
    ]
  where
    pushed : (lines : List Bytes) → is_empty (push c lines) ≡ false
    pushed [] = refl
    pushed (line ∷ lines) = refl
