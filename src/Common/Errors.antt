-- ===== src/Common/Errors.antt =====
-- core/errors.py: a command returns a value or raises. A `HarnessError` carries its code; the
-- other exceptions (RuntimeError, TypeError, ...) are faults of the program.
use mathlib.Core.Path.{◌≡◌, refl}
use mathlib.Core.Bool.{Bool, true, false}
use mathlib.Core.Option.{Option, none, some}
use mathlib.Core.Logic.{◌⊎◌, inl, inr}
use agentic_design_harness.Common.Tests.{if◌then◌else◌}

pub data Code : Type 0 where
  validation_error invalid_state_transition revision_conflict idempotency_conflict : Code
  task_not_found instance_not_found task_archived budget_gate_denied process_start_failed : Code

pub data Fault : Type 0 where
  runtime_error type_error key_error value_error stop_iteration simulated_crash : Fault

pub data Outcome {ℓ} (A : Type ℓ) : Type ℓ where
  ok : A → Outcome A
  err : Code → Outcome A
  fault : Fault → Outcome A

-- `if not test: raise`
abbrev pub guard : Bool → Code → Outcome (Unit {0})
guard test code = if test then ok tt else err code

-- `if value is None: raise`
abbrev pub require {ℓ} : {A : Type ℓ} → Option A → Code → Outcome A
require none e = err e
require (some a) e = ok a

-- A missing key of a dictionary, `d[k]`.
abbrev pub index {ℓ} : {A : Type ℓ} → Option A → Outcome A
index none = fault key_error
index (some a) = ok a

infixl 5 ◌>>=◌
abbrev pub ◌>>=◌ {ℓ κ} : {A : Type ℓ} {B : Type κ} → Outcome A → (A → Outcome B) → Outcome B
fault x >>= next = fault x
err code >>= next = err code
ok value >>= next = next value

infixl 5 ◌>>◌
abbrev pub ◌>>◌ {ℓ} : {B : Type ℓ} → Outcome (Unit {0}) → Outcome B → Outcome B
first >> second = first >>= λ _. second

pub >>=-eq-ok {ℓ κ} :
    {A : Type ℓ} {B : Type κ} (first : Outcome A) (next : A → Outcome B) {b : B}
    → (first >>= next) ≡ ok b
    → (a : A) × (first ≡ ok a) × (next a ≡ ok b)
>>=-eq-ok (fault x) next h = cc
>>=-eq-ok (err code) next h = cc
>>=-eq-ok (ok value) next h = (value, refl, h)

pub guard-eq-ok : (b : Bool) (e : Code) {u : Unit {0}} → guard b e ≡ ok u → b ≡ true
guard-eq-ok true e h = refl
guard-eq-ok false e h = cc

pub ok_inj {ℓ} : {A : Type ℓ} {a b : A} → ok a ≡ ok b → a ≡ b
ok_inj e = cc

pub if-eq-ok {ℓ} :
    {A : Type ℓ} (b : Bool) (m n : Outcome A) {a : A}
    → (if b then m else n) ≡ ok a
    → (b ≡ true) × (m ≡ ok a) ⊎ (b ≡ false) × (n ≡ ok a)
if-eq-ok true m n h = inl (refl, h)
if-eq-ok false m n h = inr (refl, h)

pub >>=-eq-fault {ℓ κ} :
    {A : Type ℓ} {B : Type κ} (m : Outcome A) (f : A → Outcome B) {x : Fault}
    → (m >>= f) ≡ fault x
    → (m ≡ fault x) ⊎ ((a : A) × (m ≡ ok a) × (f a ≡ fault x))
>>=-eq-fault (ok a) f h = inr (a, refl, h)
>>=-eq-fault (err e) f h = cc
>>=-eq-fault (fault e) f h = inl (cc)

pub guard->>-eq-fault {ℓ} :
    {B : Type ℓ} (b : Bool) (e : Code) (k : Outcome B) {x : Fault}
    → (guard b e >> k) ≡ fault x
    → (b ≡ true) × (k ≡ fault x)
guard->>-eq-fault true e k h = (refl, h)
guard->>-eq-fault false e k h = cc
