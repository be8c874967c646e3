-- ===== src/Tests/Systems.antt =====
-- A concrete instance of the vendored helpers, and a poll of three rounds.
use vault_operator.Base.{
  String, ◌≡◌, refl, Bool, false, ◌||◌, Option, none, some, List, [], ◌∷◌, ◌==◌, eq_iff,
  if◌then◌else◌, arith, Error, message, is_nil,
}
use Prim.Native.String
use vault_operator.Meta.{
  Condition, Conditions, items, find_status, status_of, IsUnique, Vendor, AggregateLaw,
  ConditionLaws, all_nil,
}
use vault_operator.PatchUtil.{Poller, attempts}

abbrev put : Condition → List Condition → List Condition
put c [] = c ∷ []
put c (d ∷ ds) = if d.type == c.type then c ∷ ds else d ∷ put c ds

abbrev without : String → List Condition → List Condition
without t [] = []
without t (d ∷ ds) = if d.type == t then ds else d ∷ without t ds

abbrev without_conditions : Conditions → String → Conditions
without_conditions none t = none
without_conditions (some cs) t = some (without t cs)

abbrev member : String → List String → Bool
member x [] = false
member x (y ∷ ys) = x == y || member x ys

abbrev first_error : List (Option Error) → Option Error
first_error [] = none
first_error (none ∷ es) = first_error es
first_error (some e ∷ es) = some e

abbrev pub not_found : Error
not_found = message "not found"

abbrev pub conflict : Error
conflict = message "conflict"

abbrev has_text : String → Error → Bool
has_text t (message s) = s == t
has_text t _ = false

abbrev pub plain : Vendor
plain = record {
  set_condition = λ now cs c. some (put (record c { last_transition_time = now }) (items cs));
  remove_condition = without_conditions;
  has_finalizer = λ m f. member f m.finalizers;
  add_finalizer = λ m f. record m { finalizers = f ∷ m.finalizers };
  remove_finalizer = λ m f. record m { finalizers = [] };
  new_aggregate = first_error;
  error_text = λ e. "";
  is_not_found = has_text "not found";
  is_conflict = has_text "conflict";
  is_request_retryable = λ e. false;
  name_with_suffix = λ n s. String.◌++◌ n s;
}

first_error_lem : (es : List (Option Error)) → is_nil (first_error es) ≡ all_nil es
first_error_lem [] = refl
first_error_lem (none ∷ es) = first_error_lem es
first_error_lem (some e ∷ es) = refl

pub plain-AggregateLaw : AggregateLaw plain
plain-AggregateLaw = record { is_nil-new_aggregate = first_error_lem }

find_status-put :
    (c : Condition) (t : String) (cs : List Condition)
    → find_status t (put c cs) ≡ (if c.type == t then some c.status else find_status t cs)
find_status-put c t [] = refl
find_status-put c t (d ∷ ds) =
    ground (arith, find_status-put c t ds, eq_iff d.type c.type, eq_iff d.type t, eq_iff c.type t)

put-IsUnique : (c : Condition) (cs : List Condition) → IsUnique cs → IsUnique (put c cs)
put-IsUnique c [] u = (refl, tt)
put-IsUnique c (d ∷ ds) u = ground (
  arith,
  put-IsUnique c ds,
  find_status-put c d.type ds,
  eq_iff d.type c.type,
  eq_iff c.type d.type,
)

find_status-without :
    (u t : String) (cs : List Condition)
    → IsUnique cs
    → find_status t (without u cs) ≡ (if u == t then none else find_status t cs)
find_status-without u t [] q = ground arith
find_status-without u t (d ∷ ds) q =
    ground (arith, find_status-without u t ds, eq_iff d.type u, eq_iff d.type t, eq_iff u t)

without-IsUnique : (u : String) (cs : List Condition) → IsUnique cs → IsUnique (without u cs)
without-IsUnique u [] q = tt
without-IsUnique u (d ∷ ds) q =
    ground (arith, without-IsUnique u ds, find_status-without u d.type ds)

status_of-without :
    (cs : Conditions) (u t : String)
    → IsUnique (items cs)
    → status_of t (without_conditions cs u) ≡ (if u == t then none else status_of t cs)
status_of-without none u t q = ground arith
status_of-without (some cs) u t q = find_status-without u t cs q

without_conditions-IsUnique :
    (cs : Conditions) (u : String)
    → IsUnique (items cs)
    → IsUnique (items (without_conditions cs u))
without_conditions-IsUnique none u q = tt
without_conditions-IsUnique (some cs) u q = without-IsUnique u cs q

pub plain-ConditionLaws : ConditionLaws plain
plain-ConditionLaws = record {
  status_of-set_condition = λ now cs c t. find_status-put _ t (items cs);
  set_condition-IsUnique = λ now cs c. put-IsUnique _ (items cs);
  status_of-remove_condition = status_of-without;
  remove_condition-IsUnique = without_conditions-IsUnique;
}

abbrev pub thrice : (S : Type 0) → Poller S
thrice S = record {
  poll_immediate = attempts 3;
  rounds = λ condition s. 2;
  poll_immediate_lem = λ condition s. refl;
}
