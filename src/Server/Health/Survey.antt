-- ===== src/Server/Health/Survey.antt =====
-- The loop over the pods against a description of its result by the pods that answered.
use mathlib.Core.Path.{subst}
use mathlib.Core.List.{append_assoc, append-nil}
use vault_operator.Base.{
  String, ◌≡◌, ◌≢◌, ◌⊎◌, inl, inr, refl, sym, ◌∙◌, Bool, true, false, not, ◌&&◌, ◌||◌, List, [],
  ◌∷◌, ◌++◌, ◌==◌, if◌then◌else◌, is_nil, Result, ok, err, Bool-cases, Result-cases, arith, eq_iff,
}
use vault_operator.Server.Health.{
  ServerStatus, Pod, pod_running, HealthResponse, Found, nothing_found, append_if, look, visit,
  visit_all, with_found, update_local_status, phase_running,
}

-- A pod that can be asked: it runs and is not being deleted.
abbrev pub is_up : Pod → Bool
is_up p = not (not (p.phase == pod_running) || not (is_nil p.deletion_timestamp))

abbrev pub answer_of : Bool → Pod → Result HealthResponse → List (Pod × HealthResponse)
answer_of true p (ok hr) = (p, hr) ∷ []
answer_of _ p _ = []

-- The pods that are up and answered, with their answers, in the order of the list.
abbrev pub answers : (Pod → Result HealthResponse) → List Pod → List (Pod × HealthResponse)
answers health [] = []
answers health (p ∷ ps) = answer_of (is_up p) p (health p) ++ answers health ps

abbrev only : Bool → String → List String
only true name = name ∷ []
only false name = []

-- The names of those that a test picks.
abbrev pub names_where : (Pod → HealthResponse → Bool) → List (Pod × HealthResponse) → List String
names_where test [] = []
names_where test ((p, hr) ∷ found) = only (test p hr) p.name ++ names_where test found

abbrev pub is_active : HealthResponse → Bool
is_active hr = hr.initialized && not hr.sealed && not hr.standby

-- The name of the last active pod, or the one given.
abbrev pub last_active : String → List (Pod × HealthResponse) → String
last_active name [] = name
last_active name ((p, hr) ∷ found) = last_active (if is_active hr then p.name else name) found

abbrev pub some_initialized : List (Pod × HealthResponse) → Bool
some_initialized [] = false
some_initialized ((p, hr) ∷ found) = hr.initialized || some_initialized found

abbrev pub nonempty : List (Pod × HealthResponse) → Bool
nonempty [] = false
nonempty (_ ∷ _) = true

-- What the answers add to what was found.
abbrev pub survey : String → Found → List (Pod × HealthResponse) → Found
survey image f found = record {
  active_node = last_active f.active_node found;
  seal_nodes = f.seal_nodes ++ names_where (λ p hr. hr.sealed) found;
  unseal_nodes = f.unseal_nodes ++ names_where (λ p hr. not hr.sealed) found;
  stand_by_nodes =
      f.stand_by_nodes ++ names_where (λ p hr. hr.initialized && not hr.sealed && hr.standby) found;
  updated = f.updated ++ names_where (λ p hr. p.image == image) found;
  initiated = f.initiated || some_initialized found;
  changed = f.changed || nonempty found;
}

append_if-append :
    (b : Bool) (name : String) (names rest : List String)
    → append_if b name names ++ rest ≡ names ++ (only b name ++ rest)
append_if-append true name names rest = append_assoc names (name ∷ []) rest
append_if-append false name names rest = refl

or_lem : (i f rest : Bool) → (if i then true else f) || rest ≡ f || (i || rest)
or_lem true true rest = refl
or_lem true false rest = refl
or_lem false f rest = refl

or_true : (b : Bool) → b || true ≡ true
or_true true = refl
or_true false = refl

survey-look :
    (image : String) (p : Pod) (hr : HealthResponse) (f : Found)
    (found : List (Pod × HealthResponse))
    → survey image (look image p hr f) found ≡ survey image f ((p, hr) ∷ found)
unfolding look
survey-look image p hr f found =
    rw
      (
        append_if-append hr.sealed p.name f.seal_nodes (names_where (λ p hr. hr.sealed) found),
        append_if-append (not hr.sealed) p.name f.unseal_nodes
            (names_where (λ p hr. not hr.sealed) found),
        append_if-append (hr.initialized && not hr.sealed && hr.standby) p.name f.stand_by_nodes
            (names_where (λ p hr. hr.initialized && not hr.sealed && hr.standby) found),
        append_if-append (p.image == image) p.name f.updated
            (names_where (λ p hr. p.image == image) found),
        or_lem hr.initialized f.initiated (some_initialized found),
        or_true f.changed,
      )
      refl

or_false : (b : Bool) → b || false ≡ b
or_false true = refl
or_false false = refl

survey-nil : (image : String) (f : Found) → survey image f [] ≡ f
survey-nil image f =
    rw
      (
        append-nil f.seal_nodes,
        append-nil f.unseal_nodes,
        append-nil f.stand_by_nodes,
        append-nil f.updated,
        or_false f.initiated,
        or_false f.changed,
      )
      refl

module _ (image : String) (health : Pod → Result HealthResponse) where
  survey-visit :
      (f : Found) (p : Pod) (found : List (Pod × HealthResponse))
      → survey image (visit image health f p) found
        ≡ survey image f (answer_of (is_up p) p (health p) ++ found)
  unfolding visit
  survey-visit f p found =
      elim (Bool-cases (not (p.phase == pod_running) || not (is_nil p.deletion_timestamp))) [
        | inl d ↦ rw (d, visit) refl
        | inr u ↦ elim (Result-cases (health p)) [
          | inl (hr, q) ↦ rw (u, q, visit) (survey-look image p hr f found)
          | inr (e, q) ↦ rw (u, q, visit) refl
        ]
      ]

  visit_all-survey :
      (f : Found) (ps : List Pod) → visit_all image health f ps ≡ survey image f (answers health ps)
  unfolding visit_all
  visit_all-survey f [] = sym (survey-nil image f)
  visit_all-survey f (p ∷ ps) =
      visit_all-survey (visit image health f p) ps ∙ survey-visit f p (answers health ps)

-- What a round leaves of a status, by the answers of the pods.
abbrev pub IsDescribed : String → List (Pod × HealthResponse) → ServerStatus → ServerStatus → Type 0
IsDescribed image found s after =
    (nonempty found ≡ false → after ≡ s)
    × (nonempty found ≡ true
        → (after.vault_status ≡ record {
          active = last_active "" found;
          standby = names_where (λ p hr. hr.initialized && not hr.sealed && hr.standby) found;
          sealed = names_where (λ p hr. hr.sealed) found;
          unsealed = names_where (λ p hr. not hr.sealed) found;
        })
          × (after.updated_nodes ≡ names_where (λ p hr. p.image == image) found)
          × (after.initialized ≡ some_initialized found))

with_found-IsDescribed :
    (image : String) (found : List (Pod × HealthResponse)) (s : ServerStatus)
    → IsDescribed image found s (with_found (survey image nothing_found found) s)
with_found-IsDescribed image [] s = (λ n. refl, λ y. cc)
with_found-IsDescribed image (_ ∷ _) s = (λ n. cc, λ y. (refl, refl, refl))

-- A round over a list of pods leaves the status that their answers describe: the pods that answered
-- and are sealed, those that are not, and those that are on standby, in the order of the list, the
-- last active one, those of the version's image, and whether one is initialised. If no pod that is
-- up answered, the status stays as it was.
pub update_local_status-IsDescribed :
    (image : String) (health : Pod → Result HealthResponse) (p : Pod) (ps : List Pod)
    (s : ServerStatus)
    → IsDescribed image
        (answers health (p ∷ ps))
        s
        (update_local_status (ok image) (ok (p ∷ ps)) health s)
unfolding update_local_status
update_local_status-IsDescribed image health p ps s =
    subst (λ f. IsDescribed image (answers health (p ∷ ps)) s (with_found f s))
      (sym (visit_all-survey image health nothing_found (p ∷ ps)))
      (with_found-IsDescribed image (answers health (p ∷ ps)) s)

-- The phase Running is only reported of a server whose status names an active pod and is
-- initialised, or that was reported to run before.
pub running-active :
    (version : Result String) (pods : Result (List Pod)) (health : Pod → Result HealthResponse)
    (s : ServerStatus)
    → let after = update_local_status version pods health s in
      after.phase ≡ phase_running
      → ((after.initialized ≡ true) × (after.vault_status.active ≢ "")) ⊎ (s.phase ≡ phase_running)
unfolding update_local_status
running-active (err e) pods health s q = inr q
running-active (ok image) (err e) health s q = inr q
running-active (ok image) (ok []) health s q = inr q
running-active (ok image) (ok (p ∷ ps)) health s q = ground (
  arith,
  eq_iff "Uninitialized" "Running",
  eq_iff "Sealed" "Running",
  eq_iff (visit_all image health nothing_found (p ∷ ps)).active_node "",
)
