-- ===== src/Tests/PatchUtils.antt =====
-- The patch utilities against four small API servers.
use vault_operator.Base.{
  ℕ, suc, String, ◌≡◌, ◌≢◌, refl, true, false, ◌⊎◌, none, some, [], ◌∷◌, ◌==◌, if◌then◌else◌, Error,
  message, Fallible, ok, after_attempts,
}
use vault_operator.Meta.{ObjectMeta, Object}
use vault_operator.PatchUtil.{
  Client, UpdateState, nothing_to_patch, unchanged, patched, created, attempts, update_status_round,
  update_status, create_or_patch, try_patch, wait_timeout,
}
use vault_operator.PatchUtil.Status.{IsWritten, update_status_ok}
use vault_operator.PatchUtil.Errors.{GetFails, FromPoll, update_status_error, context}
use vault_operator.PatchUtil.Update.{IsUpdated, try_update_ok}
use vault_operator.PatchUtil.{try_update, try_update_round, TryState}
use vault_operator.PatchUtil.Patch.{
  merge_text, NamesLost, is_missing, create_or_patch_calls, try_patch_lost,
}
use vault_operator.Tests.Systems.{plain, not_found, thrice}

abbrev meta_of : String → ObjectMeta
meta_of n = record {
  name = n;
  namespace = "ns";
  generation = 1;
  deletion_timestamp = none;
  finalizers = [];
}

abbrev Thing : Type 0
Thing = Object ℕ ℕ

abbrev thing : String → ℕ → Thing
thing n s = record { meta = meta_of n; spec = 7; status = s }

-- A server whose Get, write and status write answer as told; the trace counts the calls.
abbrev server : (String → Fallible Thing) → (Thing → Fallible Thing) → Client ℕ ℕ ℕ
server get write = record {
  get = λ ns n h. (get n, 0 ∷ h);
  create = λ ns o h. (write o, 1 ∷ h);
  update = λ ns o h. (write o, 2 ∷ h);
  update_status = λ ns o h. (write o, 3 ∷ h);
  patch = λ ns n p h. (write (thing n 0), 4 ∷ h);
  marshal = λ o. ok (if o.meta.namespace == "ns" then "a" else "b");
  create_merge_patch = λ a b. ok (if a == b then "{}" else "p");
  zero_spec = 0;
  zero_status = 0;
}

abbrev willing : Client ℕ ℕ ℕ
willing = server (λ n. (thing n 5, none)) (λ o. (o, none))

-- Every write is refused, and not for a conflict.
abbrev refusing : Client ℕ ℕ ℕ
refusing = server (λ n. (thing n 5, none)) (λ o. (o, some (message "invalid")))

-- Nothing is found.
abbrev empty : Client ℕ ℕ ℕ
empty = server (λ n. (thing "" 0, some not_found)) (λ o. (o, none))

-- Every Get fails for the moment.
abbrev down : Client ℕ ℕ ℕ
down = server (λ n. (thing "" 0, some (message "unavailable"))) (λ o. (o, none))

update_status_ok_example :
    IsWritten willing
      (meta_of "x")
      (λ s. suc s)
      (update_status plain willing (thrice (UpdateState ℕ ℕ ℕ)) (meta_of "x") (λ s. suc s) []).0.0
unfolding update_status attempts update_status_round
update_status_ok_example =
    update_status_ok plain willing (meta_of "x") (λ s. suc s) (thrice (UpdateState ℕ ℕ ℕ)) [] refl

-- The three attempts are used up, and the refusal is lost.
refused :
    (update_status plain refusing (thrice (UpdateState ℕ ℕ ℕ)) (meta_of "x") (λ s. suc s) []).0.1
    ≡ some (after_attempts context 3 wait_timeout)
unfolding update_status attempts update_status_round
refused = refl

update_status_error_example :
    GetFails refusing (meta_of "x") (after_attempts context 3 wait_timeout)
    ⊎ FromPoll plain refusing (meta_of "x") (after_attempts context 3 wait_timeout)
update_status_error_example =
    update_status_error plain refusing (meta_of "x") (λ s. suc s) (thrice (UpdateState ℕ ℕ ℕ)) []
      refused

abbrev moved : Thing → Thing
moved o = record o { meta = record (meta_of "x") { namespace = "other" } }

create_or_patch_calls_example :
    let r = create_or_patch plain empty (meta_of "x") (λ o. o) [] in
    let found = empty.get "ns" "x" [] in
    let p = merge_text plain empty found.0.0 found.0.0 in
    (r.0.1 ≡ created → is_missing plain found.0.1 ≡ true)
    × (found.0.1 ≡ none
        → (r.0.1 ≡ (if nothing_to_patch p then unchanged else patched))
          × (r.1 ≡ (
              if nothing_to_patch p
              then found.1
              else (empty.patch found.0.0.meta.namespace found.0.0.meta.name p found.1).1)))
    × (is_missing plain found.0.1 ≡ true → (r.0.1 ≡ created) × (r.1 ≡ 1 ∷ 0 ∷ []))
    × ((e : Error)
        → found.0.1 ≡ some e
        → plain.is_not_found e ≡ false
        → (r.0.2 ≡ some e) × (r.1 ≡ 0 ∷ []))
create_or_patch_calls_example = create_or_patch_calls plain empty (meta_of "x") (λ o. o) []

down-NamesLost : NamesLost plain down
down-NamesLost = record { fails = λ ns h. (message "unavailable", thing "" 0, refl, refl, refl) }

try_patch_lost_example :
    (try_patch plain down (thrice (UpdateState ℕ ℕ ℕ)) (thing "x" 5) moved []).0.1 ≢ none
try_patch_lost_example =
    try_patch_lost plain down moved down-NamesLost (thrice (UpdateState ℕ ℕ ℕ)) (thing "x" 5) []
      (refl, refl)

update_succeeds :
    (try_update plain willing (thrice (TryState ℕ ℕ ℕ)) (meta_of "x") moved []).0.1 ≡ none
unfolding try_update attempts try_update_round
update_succeeds = refl

try_update_ok_example :
    IsUpdated plain willing
      (meta_of "x")
      moved
      (try_update plain willing (thrice (TryState ℕ ℕ ℕ)) (meta_of "x") moved []).0.0
try_update_ok_example =
    try_update_ok plain willing (meta_of "x") moved (thrice (TryState ℕ ℕ ℕ)) [] update_succeeds
