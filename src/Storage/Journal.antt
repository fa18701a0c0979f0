-- ===== src/Storage/Journal.antt =====
-- backend/harness/storage/ndjson.py: the bytes of a journal. A JSON object is a dictionary; JSON, the
-- canonical encoding and the digest of storage/atomic.py are parameters.
pub mod Lines
pub mod Recovery
use agentic_design_harness.Common.{
  eqb, if◌then◌else◌, length, take, is_empty, runtime_error, Outcome, ok, fault, ◌>>=◌, Dict,
  lookup, insert, erase, ℕ, ◌+◌, String, Bool, false, ◌&&◌, ◌||◌, not, Option, none, some, List, [],
  ◌∷◌, ◌++◌, ◌==◌,
}

abbrev pub Bytes : Type 0
Bytes = List ℕ

-- `raw.splitlines(keepends=True)` of bytes: a line ends with a line feed, a carriage return, or both.
abbrev pub is_newline : ℕ → Bool
is_newline c = eqb c b'\n'

abbrev pub is_return : ℕ → Bool
is_return c = eqb c b'\r'

abbrev pub starts_with_newline : Bytes → Bool
starts_with_newline [] = false
starts_with_newline (c ∷ cs) = is_newline c

abbrev pub push : ℕ → List Bytes → List Bytes
push c [] = (c ∷ []) ∷ []
push c (line ∷ lines) = (c ∷ line) ∷ lines

unfoldable pub split_lines : Bytes → List Bytes
split_lines [] = []
split_lines (c ∷ cs) =
    let rest = split_lines cs in
    if is_newline c || is_return c && not (starts_with_newline cs)
    then (c ∷ []) ∷ rest
    else push c rest

-- `line.endswith(b"\n")`
unfoldable pub is_complete : Bytes → Bool
is_complete [] = false
is_complete (c ∷ []) = is_newline c
is_complete (c ∷ d ∷ cs) = is_complete (d ∷ cs)

-- `line[:-1]`
unfoldable pub without_last : Bytes → Bytes
without_last [] = []
without_last (c ∷ []) = []
without_last (c ∷ d ∷ cs) = c ∷ without_last (d ∷ cs)

abbrev pub checksum_key : String
checksum_key = "_record_checksum"

-- The records that were read, and where the file was cut off.
pub record Recovered (V : Type 0) : Type 0 where
  pub records : List (Dict V)
  pub truncated_to : Option ℕ

-- What the module takes from the `json` and `hashlib` libraries: the text values of JSON, the
-- canonical encoding of an object, its decoding (`none` where it raises, `some none` for a value that
-- is no object), and the digest of the encoding.
pub record Json (V : Type 0) : Type 0 where
  pub text : String → V
  pub as_text : V → Option String
  pub dumps : Dict V → Bytes
  pub loads : Bytes → Option (Option (Dict V))
  pub digest : Dict V → String

abbrev pub contents : Option Bytes → Bytes
contents none = []
contents (some raw) = raw

abbrev pub cut : Bytes → Option ℕ → Bytes
cut raw none = raw
cut raw (some end) = take end raw

module _ {V : Type 0} (json : Json V) where
  -- `_record_with_checksum`
  unfoldable pub record_with_checksum : Dict V → Dict V
  record_with_checksum r =
      let clean = erase checksum_key r in insert checksum_key (json.text (json.digest clean)) clean

  -- The line that `append_record` writes, and the file after it.
  unfoldable pub record_line : Dict V → Bytes
  unfolding record_with_checksum
  record_line r = json.dumps (record_with_checksum r) ++ b'\n' ∷ []

  unfoldable pub append_record : Option Bytes → Dict V → Option Bytes
  unfolding record_line
  append_record file r = some (contents file ++ record_line r)

  abbrev pub verified : Dict V → Option String → Option (Dict V)
  verified d none = none
  verified d (some expected) =
      if expected == json.digest (erase checksum_key d) then some (erase checksum_key d) else none

  abbrev pub text_of : Option V → Option String
  text_of none = none
  text_of (some v) = json.as_text v

  abbrev pub verified_object : Option (Option (Dict V)) → Option (Dict V)
  verified_object none = none
  verified_object (some none) = none
  verified_object (some (some d)) = verified d (text_of (lookup checksum_key d))

  -- `_decode_verified`, `none` where it raises.
  unfoldable pub decode_verified : Bytes → Option (Dict V)
  decode_verified raw_line = verified_object (json.loads raw_line)

  unfoldable pub decode_line : Bytes → Option (Dict V)
  unfolding decode_verified is_complete without_last
  decode_line line = if is_complete line then decode_verified (without_last line) else none

  -- The loop of `_recover_records`: the records so far and the end of the last of them. Corruption
  -- before the last line is an NdjsonCorruptionError.
  unfoldable pub recover_lines : List (Dict V) → ℕ → List Bytes → Outcome (Recovered V)
  recover_lines records verified_end [] = ok (record { records = records; truncated_to = none })
  recover_lines records verified_end (line ∷ lines) = elim (decode_line line) [
    | none ↦
        if is_empty lines
        then ok (record { records = records; truncated_to = some verified_end })
        else fault runtime_error
    | some r ↦ recover_lines (records ++ r ∷ []) (verified_end + length line) lines
  ]

  -- `recover_records`: what was read, and the file after it.
  unfoldable pub recover_records : Option Bytes → Outcome (List (Dict V) × Option Bytes)
  unfolding recover_lines split_lines
  recover_records none = ok ([], none)
  recover_records (some raw) = recover_lines [] 0 (split_lines raw) >>= λ (r : Recovered V).
      ok (r.records, some (cut raw r.truncated_to))
