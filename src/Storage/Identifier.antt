-- ===== src/Storage/Identifier.antt =====
-- backend/harness/storage/layout.py: `validate_identifier`, the pattern
-- [A-Za-z][A-Za-z0-9_-]{0,127}.
use Prim.Native.Char.{code}
use agentic_design_harness.Common.{
  leb, eqb, length, all, Code, Outcome, ok, err, guard, ℕ, String, ◌≡◌, refl, Bool, false, ◌&&◌,
  ◌||◌, List, [], ◌∷◌,
}

abbrev pub codes : String → List ℕ
codes String.[] = []
codes (String.◌∷◌ c s) = code c ∷ codes s

unfoldable pub is_letter : ℕ → Bool
is_letter c = leb b'A' c && leb c b'Z' || leb b'a' c && leb c b'z'

unfoldable pub is_word : ℕ → Bool
unfolding is_letter
is_word c = is_letter c || leb b'0' c && leb c b'9' || eqb c b'_' || eqb c b'-'

unfoldable pub matches : List ℕ → Bool
unfolding is_letter is_word
matches [] = false
matches (c ∷ cs) = is_letter c && all is_word cs && leb (length cs) 127

unfoldable pub validate_identifier : String → Outcome (Unit {0})
unfolding matches
validate_identifier value = guard (matches (codes value)) Code.validation_error

identifier_tests :
    (validate_identifier "task_01" ≡ ok tt)
    × (validate_identifier "1task" ≡ err Code.validation_error)
    × (validate_identifier "../up" ≡ err Code.validation_error)
unfolding validate_identifier
identifier_tests = (refl, refl, refl)
