-- ===== src/Storage/Journal/Recovery.antt =====
-- backend/harness/storage/ndjson.py: what is read back of a journal.
use mathlib.Core.List.{append_assoc, append-nil}
use agentic_design_harness.Common.{
  length, take, flat_map, All, runtime_error, ok, fault, Dict, lookup, erase, ℕ, zero, suc, ◌+◌,
  ◌≤◌, ◌<◌, ◌≡◌, refl, sym, ap, ◌∙◌, Option, none, some, List, [], ◌∷◌, ◌++◌, map, arith, eq_iff,
}
use agentic_design_harness.Storage.Journal.{
  Bytes, split_lines, checksum_key, Json, contents, record_with_checksum, record_line,
  append_record, text_of, decode_verified, decode_line, recover_lines, recover_records,
}
use agentic_design_harness.Storage.Journal.Lines.{
  Unbroken, split_lines-line, split_lines-torn, is_complete-line, is_complete-torn,
  without_last-line, split_lines-not_empty,
}

add_zero : (n : ℕ) → n + 0 ≡ n
add_zero n = omega arith

take-append : (xs ys : Bytes) → take (length xs) (xs ++ ys) ≡ xs
take-append [] ys = refl
take-append (x ∷ xs) ys = ap (◌∷◌ x) (take-append xs ys)

length-append : (xs ys : Bytes) → length (xs ++ ys) ≡ length xs + length ys
length-append [] ys = omega arith
length-append (x ∷ xs) ys = omega (arith, length-append xs ys)

module _ {V : Type 0} (json : Json V) (sort_keys : Dict V → Dict V) where
  -- A record that JSON can carry: its encoding is one line, which reads back as the same object with
  -- its keys sorted, and the order of keys matters neither to the digest nor to the checksum.
  pub record IsStorable (r : Dict V) : Type 0 where
    pub one_line : Unbroken (json.dumps (record_with_checksum json r))
    pub reads_back :
        json.loads (json.dumps (record_with_checksum json r))
        ≡ some (some (sort_keys (record_with_checksum json r)))
    pub sorted_checksum :
        text_of json (lookup checksum_key (sort_keys (record_with_checksum json r)))
        ≡ some (json.digest (erase checksum_key r))
    pub sorted_digest :
        json.digest (erase checksum_key (sort_keys (record_with_checksum json r)))
        ≡ json.digest (erase checksum_key r)

  -- The record as it is read back.
  unfoldable pub stored : Dict V → Dict V
  stored r = erase checksum_key (sort_keys (record_with_checksum json r))

  abbrev line : Dict V → Bytes
  line = record_line json

  abbrev pub journal : List (Dict V) → Bytes
  journal rs = flat_map line rs

  decode_line-line : (r : Dict V) → IsStorable r → decode_line json (line r) ≡ some (stored r)
  unfolding decode_line record_line decode_verified stored
  decode_line-line r h =
      rw
        (
          is_complete-line (json.dumps (record_with_checksum json r)),
          without_last-line (json.dumps (record_with_checksum json r)),
          h.reads_back,
          h.sorted_checksum,
        )
        (rw
          (
            h.sorted_digest,
            (eq_iff (json.digest (erase checksum_key r)) (json.digest (erase checksum_key r))).1
                refl,
          )
          refl)

  -- The rest of a line that a crash has cut off.
  torn_cut : Bytes → ℕ → Option ℕ
  torn_cut [] end = none
  torn_cut (c ∷ cs) end = some end

  decode_line-torn : (torn : Bytes) → Unbroken torn → decode_line json torn ≡ none
  unfolding decode_line
  decode_line-torn torn h = rw (is_complete-torn torn h) refl

  recover_lines-torn :
      (torn : Bytes) (records : List (Dict V)) (end : ℕ)
      → Unbroken torn
      → recover_lines json records end (split_lines torn)
        ≡ ok (record { records = records; truncated_to = torn_cut torn end })
  unfolding recover_lines torn_cut
  recover_lines-torn [] records end h = unfold split_lines in refl
  recover_lines-torn (c ∷ cs) records end h =
      rw (split_lines-torn c cs h) (rw (decode_line-torn (c ∷ cs) h, recover_lines) refl)

  split_lines-journal :
      (r : Dict V) (rest : Bytes)
      → IsStorable r
      → split_lines (line r ++ rest) ≡ line r ∷ split_lines rest
  unfolding record_line
  split_lines-journal r rest h =
      rw append_assoc (split_lines-line (json.dumps (record_with_checksum json r)) rest h.one_line)

  -- The loop over the lines of whole records, whatever follows them.
  recover_lines-journal :
      (rs : List (Dict V)) (rest : Bytes) (records : List (Dict V)) (end : ℕ)
      → All IsStorable rs
      → recover_lines json records end (split_lines (journal rs ++ rest))
        ≡ recover_lines json
            (records ++ map stored rs)
            (end + length (journal rs))
            (split_lines rest)
  unfolding recover_lines
  recover_lines-journal [] rest records end h = rw (append-nil, add_zero end) refl
  recover_lines-journal (r ∷ rs) rest records end h =
      let ih =
        recover_lines-journal rs rest (records ++ stored r ∷ []) (end + length (line r)) h.1 in
      let n : end + length (line r) + length (journal rs) ≡ end + length (line r ++ journal rs) =
        omega (arith, length-append (line r) (journal rs)) in
      let m : (records ++ stored r ∷ []) ++ map stored rs ≡ records ++ stored r ∷ map stored rs =
        append_assoc records (stored r ∷ []) (map stored rs) in
      rw append_assoc (
        rw (split_lines-journal r (journal rs ++ rest) h.0)
          (rw (decode_line-line r h.0, recover_lines) (rw (← n, ← m) ih)))

  recover_records-torn :
      (rs : List (Dict V)) (torn : Bytes)
      → All IsStorable rs
      → Unbroken torn
      → recover_records json (some (journal rs ++ torn)) ≡ ok (map stored rs, some (journal rs))
  unfolding recover_records
  recover_records-torn rs [] h u =
      rw (recover_lines-journal rs [] [] 0 h)
        (unfold split_lines recover_lines in rw (append-nil (journal rs)) refl)
  recover_records-torn rs (c ∷ cs) h u =
      let start : 0 + length (journal rs) ≡ length (journal rs) = omega arith in
      rw (recover_lines-journal rs (c ∷ cs) [] 0 h) (
        rw start (
          rw (recover_lines-torn (c ∷ cs) (map stored rs) (length (journal rs)) u)
            (unfold torn_cut in rw (take-append (journal rs) (c ∷ cs)) refl)))

  -- Records that are appended one after another.
  unfoldable pub append_all : Option Bytes → List (Dict V) → Option Bytes
  append_all file [] = file
  append_all file (r ∷ rs) = append_all (append_record json file r) rs

  contents-append_all :
      (rs : List (Dict V)) (file : Option Bytes)
      → contents (append_all file rs) ≡ contents file ++ journal rs
  unfolding append_all append_record
  contents-append_all [] file = sym (append-nil (contents file))
  contents-append_all (r ∷ rs) file =
      contents-append_all rs (append_record json file r)
      ∙ append_assoc (contents file) (line r) (journal rs)

  append_all-some :
      (rs : List (Dict V)) (file : Option Bytes) (raw : Bytes)
      → file ≡ some raw
      → append_all file rs ≡ some (raw ++ journal rs)
  unfolding append_all append_record
  append_all-some [] file raw e = rw (append-nil raw) e
  append_all-some (r ∷ rs) file raw e =
      let after : append_record json file r ≡ some (raw ++ line r) = rw e refl in
      append_all-some rs (append_record json file r) (raw ++ line r) after
      ∙ rw (append_assoc raw (line r) (journal rs)) refl

  take-Unbroken :
      (n : ℕ) (bs : Bytes) → n ≤ length bs → Unbroken bs → Unbroken (take n (bs ++ b'\n' ∷ []))
  take-Unbroken zero bs h u = tt
  take-Unbroken (suc n) [] h u = absurd (omega arith)
  take-Unbroken (suc n) (b ∷ bs) h u = (u.0, take-Unbroken n bs (omega arith) u.1)

  -- A crash that cuts an append off after any number of its bytes, none of them included, leaves a
  -- journal from which recovery reads the records appended before, and no other, and which it cuts
  -- back to their bytes.
  pub recover_records-crash :
      (rs : List (Dict V)) (r : Dict V) (n : ℕ)
      → All IsStorable rs
      → IsStorable r
      → n < length (record_line json r)
      → recover_records json (some (contents (append_all none rs) ++ take n (record_line json r)))
        ≡ ok (map stored rs, some (contents (append_all none rs)))
  unfolding record_line
  recover_records-crash rs r n h k m =
      let few : n ≤ length (json.dumps (record_with_checksum json r)) =
        omega (arith, length-append (json.dumps (record_with_checksum json r)) (b'\n' ∷ [])) in
      rw (contents-append_all rs none) (
        recover_records-torn rs (take n (record_line json r)) h
          (take-Unbroken n (json.dumps (record_with_checksum json r)) few k.one_line))

  decode_line-corrupt :
      (bad : Bytes) → decode_verified json bad ≡ none → decode_line json (bad ++ b'\n' ∷ []) ≡ none
  unfolding decode_line
  decode_line-corrupt bad d = rw (is_complete-line bad, without_last-line bad) d

  -- What has been appended is read back in order, and the file is left as it is.
  pub recover_records-append_all :
      (rs : List (Dict V))
      → All IsStorable rs
      → recover_records json (append_all none rs) ≡ ok (map stored rs, append_all none rs)
  unfolding recover_records append_all append_record
  recover_records-append_all [] h = refl
  recover_records-append_all (r ∷ rs) h =
      let whole = append_all-some rs (append_record json none r) (line r) refl in
      let read = recover_records-torn (r ∷ rs) [] h tt in
      rw whole (ground (arith, read, append-nil (journal (r ∷ rs))))

  -- A line that does not pass its checksum, with anything behind it, stops recovery with an error.
  pub recover_records-corrupt :
      (rs : List (Dict V)) (bad : Bytes) (c : ℕ) (rest : Bytes)
      → All IsStorable rs
      → Unbroken bad
      → decode_verified json bad ≡ none
      → recover_records json (some (journal rs ++ (bad ++ b'\n' ∷ (c ∷ rest))))
        ≡ fault runtime_error
  unfolding recover_records
  recover_records-corrupt rs bad c rest h u d =
      rw (recover_lines-journal rs (bad ++ b'\n' ∷ (c ∷ rest)) [] 0 h) (
        rw (split_lines-line bad (c ∷ rest) u)
          (rw (decode_line-corrupt bad d, recover_lines) (rw (split_lines-not_empty c rest) refl)))
