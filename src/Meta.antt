-- ===== src/Meta.antt =====
-- The parts of a Kubernetes object that every controller reads: its metadata, its conditions, and
-- the calls of the vendored helpers `kmapi` (conditions) and `core_util` (finalizers).
use vault_operator.Base.{
  ℕ, String, ◌≡◌, ◌≢◌, arith, Bool, true, false, Option, none, some, List, [], ◌∷◌, ◌==◌, Error,
  if◌then◌else◌, is_nil,
}

pub record ObjectMeta : Type 0 where
  pub name : String
  pub namespace : String
  pub generation : ℕ
  pub deletion_timestamp : Option ℕ
  pub finalizers : List String

-- A custom resource: `ObjectMeta`, `Spec`, `Status`; its `TypeMeta` is its kind's.
pub record Object (Spec Status : Type 0) : Type 0 where
  pub meta : ObjectMeta
  pub spec : Spec
  pub status : Status

pub record Condition : Type 0 where
  pub type : String
  pub status : String
  pub observed_generation : ℕ
  pub last_transition_time : ℕ
  pub reason : String
  pub message : String

-- A slice: `none` is the nil slice.
abbrev pub Conditions : Type 0
Conditions = Option (List Condition)

-- What `range` goes through.
abbrev pub items : Conditions → List Condition
items none = []
items (some cs) = cs

abbrev pub condition_failed : String
condition_failed = "Failed"

abbrev pub condition_available : String
condition_available = "Available"

abbrev pub condition_true : String
condition_true = "True"

abbrev pub condition_request_approved : String
condition_request_approved = "Approved"

abbrev pub condition_request_denied : String
condition_request_denied = "Denied"

-- The status of the first condition of a type.
abbrev pub find_status : String → List Condition → Option String
find_status t [] = none
find_status t (c ∷ cs) = if c.type == t then some c.status else find_status t cs

abbrev pub status_of : String → Conditions → Option String
status_of t cs = find_status t (items cs)

-- Each type stands at most once.
abbrev pub IsUnique : List Condition → Type 0
IsUnique [] = Unit
IsUnique (c ∷ cs) = (find_status c.type cs ≡ none) × IsUnique cs

-- Calls of code that is not the operator's own. A nil error is no conflict and not "not found".
-- `SetCondition` reads the clock itself: it is given the time.
pub record Vendor : Type 0 where
  pub set_condition : ℕ → Conditions → Condition → Conditions
  pub remove_condition : Conditions → String → Conditions
  pub has_finalizer : ObjectMeta → String → Bool
  pub add_finalizer : ObjectMeta → String → ObjectMeta
  pub remove_finalizer : ObjectMeta → String → ObjectMeta
  pub new_aggregate : List (Option Error) → Option Error
  pub error_text : Error → String
  pub is_not_found : Error → Bool
  pub is_conflict : Error → Bool
  pub is_request_retryable : Error → Bool
  pub name_with_suffix : String → String → String

-- True where every error of the list is nil.
abbrev pub all_nil : List (Option Error) → Bool
all_nil [] = true
all_nil (none ∷ es) = all_nil es
all_nil (some e ∷ es) = false

-- `NewAggregate` is documented to be nil exactly when it is given no error that is not nil.
pub record AggregateLaw (v : Vendor) : Type 0 where
  pub is_nil-new_aggregate : (es : List (Option Error)) → is_nil (v.new_aggregate es) ≡ all_nil es

pub aggregate-ne-none :
    (v : Vendor)
    → AggregateLaw v
    → (e' : Option Error) (e : Error) → v.new_aggregate (e' ∷ some e ∷ []) ≢ none
aggregate-ne-none v law none e p = ground (arith, law.is_nil-new_aggregate (none ∷ some e ∷ []))
aggregate-ne-none v law (some e') e p =
    ground (arith, law.is_nil-new_aggregate (some e' ∷ some e ∷ []))

-- `SetCondition` adds or updates the condition of a type and leaves the others; `RemoveCondition`
-- removes the condition of a type. Both keep the types distinct.
pub record ConditionLaws (v : Vendor) : Type 0 where
  pub status_of-set_condition :
      (now : ℕ) (cs : Conditions) (c : Condition) (t : String)
      → status_of t (v.set_condition now cs c)
        ≡ (if c.type == t then some c.status else status_of t cs)
  pub set_condition-IsUnique :
      (now : ℕ) (cs : Conditions) (c : Condition)
      → IsUnique (items cs)
      → IsUnique (items (v.set_condition now cs c))
  pub status_of-remove_condition :
      (cs : Conditions) (u t : String)
      → IsUnique (items cs)
      → status_of t (v.remove_condition cs u) ≡ (if u == t then none else status_of t cs)
  pub remove_condition-IsUnique :
      (cs : Conditions) (u : String)
      → IsUnique (items cs)
      → IsUnique (items (v.remove_condition cs u))

abbrev pub finalizer : String
finalizer = "kubevault.com"
