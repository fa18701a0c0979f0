-- ===== src/Witnesses/Journals.antt =====
-- The theorems on journals and retry lineages at concrete inputs. A JSON value is a text here, and every
-- object is encoded as the empty object.
use agentic_design_harness.Common.{
  eqb, if◌then◌else◌, length, take, All, runtime_error, ok, fault, Dict, lookup, insert, erase,
  index_onto, index_by, ◌<◌, String, ◌≡◌, refl, ◌≢◌, Option, none, some, List, [], ◌∷◌, ◌++◌, map,
  arith,
}
use agentic_design_harness.Storage.Journal.{
  Bytes, checksum_key, Json, contents, record_with_checksum, record_line, decode_verified,
  recover_records,
}
use agentic_design_harness.Storage.Journal.Recovery.{
  IsStorable, stored, journal, append_all, recover_records-crash, recover_records-corrupt,
}
use agentic_design_harness.Retry.Lineage.{absent, Link, lineage_root, rounds}
use agentic_design_harness.Retry.Lineage.Walk.{by_id, lineage_root-ends}

abbrev sum_of : Dict String → String
sum_of _ = "sum"

abbrev loads_of : Bytes → Option (Option (Dict String))
loads_of [] = none
loads_of (c ∷ cs) = if eqb c b'{' then some (some ((checksum_key, "sum") ∷ [])) else none

abbrev texts : Json String
texts = record {
  text = λ s. s;
  as_text = some;
  dumps = λ _. b'{' ∷ b'}' ∷ [];
  loads = loads_of;
  digest = sum_of;
}

abbrev unsorted : Dict String → Dict String
unsorted d = d

abbrev empty_object : Dict String
empty_object = []

storable : IsStorable texts unsorted empty_object
unfolding record_with_checksum lookup insert erase
storable = record {
  one_line = (ground arith, (ground arith, tt));
  reads_back = refl;
  sorted_checksum = refl;
  sorted_digest = refl;
}

two_objects : All (IsStorable texts unsorted) (empty_object ∷ empty_object ∷ [])
two_objects = (storable, (storable, tt))

abbrev two_lines : Option Bytes
two_lines = append_all texts unsorted none (empty_object ∷ empty_object ∷ [])

short : 2 < length (record_line texts empty_object)
unfolding record_line
short = omega arith

recover_records-crash_example :
    recover_records texts (some (contents two_lines ++ take 2 (record_line texts empty_object)))
    ≡ ok (map (stored texts unsorted) (empty_object ∷ empty_object ∷ []), some (contents two_lines))
recover_records-crash_example =
    recover_records-crash texts unsorted (empty_object ∷ empty_object ∷ []) empty_object 2
      two_objects storable short

recover_records-corrupt_example :
    recover_records texts
      (some (journal texts unsorted (empty_object ∷ []) ++ ((b'x' ∷ []) ++ b'\n' ∷ (b'{' ∷ []))))
    ≡ fault runtime_error
unfolding decode_verified
recover_records-corrupt_example =
    recover_records-corrupt texts unsorted (empty_object ∷ []) (b'x' ∷ []) b'{' [] (storable, tt)
      (ground arith, tt) refl

-- Two attempts that each descend from the other.
abbrev circular : String → String → Link
circular own other = record {
  attempt_id = own;
  retry_of_attempt_id = other;
  instance_id = "i-1";
  retry_group_id = "g";
  root_attempt_id = absent;
  root_instance_id = absent;
}

abbrev circle : List Link
circle = circular "a-1" "a-2" ∷ circular "a-2" "a-1" ∷ []

lineage_root-ends_example :
    lineage_root (rounds (by_id circle)) (by_id circle) [] (circular "a-1" "a-2") ≢ none
unfolding lookup index_by index_onto insert
lineage_root-ends_example = lineage_root-ends circle "a-1" (circular "a-1" "a-2") refl
