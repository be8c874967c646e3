-- ===== src/Tests/Pods.antt =====
-- The pod template of a server on MySQL, with helpers that replace what has the same name.
use vault_operator.Base.{
  zero, suc, some, String, ◌≡◌, ◌≢◌, refl, true, Bool-cases, inl, inr, Option, none, List, [], ◌∷◌,
  ◌==◌, if◌then◌else◌, ok, arith, eq_iff,
}
use vault_operator.Server.Spec.{UnsealerSpec}
use vault_operator.Server.Storage.{Storage, new_storage}
use vault_operator.Server.Unsealer.{Unsealer, new_unsealer_service}
use vault_operator.Server.Pod.{
  EnvVar, Volume, VolumeMount, Container, CoreUtil, CoreUtilLaws, All, IsMade, has_volume,
}
use vault_operator.Server.Pod.Unsealer.{Cluster}
use vault_operator.Server.Pod.Template.{get_pod_template, vault_apply}
use vault_operator.Server.Pod.Template.Kept.{EndsGood}
use vault_operator.Server.Pod.Token.{
  Accounts, TokenState, first_secret, get_jwt_token_secret, token_round, try_get_jwt_token_secret,
}
use vault_operator.Server.Pod.Template.Sound.{IsBacked, accepted-EndsGood}
use vault_operator.PatchUtil.{attempts}
use vault_operator.Tests.Systems.{plain, thrice}
use vault_operator.Tests.VaultServers.{kube, server, accepted}

module _ {A : Type 0} (name : A → String) where
  abbrev put : List A → A → List A
  put [] y = y ∷ []
  put (x ∷ xs) y = if name x == name y then y ∷ xs else x ∷ put xs y

  abbrev put_all : List A → List A → List A
  put_all xs [] = xs
  put_all xs (y ∷ ys) = put_all (put xs y) ys

  put-All : (P : A → Type 0) (xs : List A) (y : A) → All P xs → P y → All P (put xs y)
  put-All P [] y h p = (p, tt)
  put-All P (x ∷ xs) y (q, h) p = elim (Bool-cases (name x == name y)) [
    | inl e ↦ rw e (p, h)
    | inr e ↦ rw e (q, put-All P xs y h p)
  ]

  put_all-All : (P : A → Type 0) (xs ys : List A) → All P xs → All P ys → All P (put_all xs ys)
  put_all-All P xs [] h k = h
  put_all-All P xs (y ∷ ys) h (p, k) = put_all-All P (put xs y) ys (put-All P xs y h p) k

  put-ne-nil : (xs : List A) (y : A) → put xs y ≢ []
  put-ne-nil [] y p = ground arith
  put-ne-nil (x ∷ xs) y p = ground arith

has_volume-put :
    (n : String) (vs : List Volume) (x : Volume)
    → has_volume n (put Volume.name vs x) ≡ (if x.name == n then true else has_volume n vs)
has_volume-put n [] x = refl
has_volume-put n (y ∷ vs) x =
    ground (arith, has_volume-put n vs x, eq_iff x.name n, eq_iff y.name n, eq_iff y.name x.name)

has_volume-put_all_old :
    (n : String) (vs new : List Volume)
    → has_volume n vs ≡ true
    → has_volume n (put_all Volume.name vs new) ≡ true
has_volume-put_all_old n vs [] h = h
has_volume-put_all_old n vs (x ∷ new) h =
    has_volume-put_all_old n (put Volume.name vs x) new (ground (arith, has_volume-put n vs x))

has_volume-put_all_new :
    (n : String) (vs new : List Volume)
    → has_volume n new ≡ true
    → has_volume n (put_all Volume.name vs new) ≡ true
has_volume-put_all_new n vs [] h = absurd (ground arith)
has_volume-put_all_new n vs (x ∷ new) h = elim (Bool-cases (x.name == n)) [
  | inl e ↦
      has_volume-put_all_old n (put Volume.name vs x) new (ground (arith, has_volume-put n vs x))
  | inr e ↦ has_volume-put_all_new n (put Volume.name vs x) new (ground arith)
]

abbrev replacing : CoreUtil
replacing = record {
  upsert_container = put Container.name;
  upsert_volume = put_all Volume.name;
  upsert_volume_mount = put_all VolumeMount.name;
  upsert_env_vars = put_all EnvVar.name;
}

replacing-CoreUtilLaws : CoreUtilLaws replacing
replacing-CoreUtilLaws = record {
  upsert_container-All = λ P Q cs c. put-All Container.name (IsMade P Q) cs c;
  upsert_container-ne-nil = put-ne-nil Container.name;
  has_volume-upsert_old = has_volume-put_all_old;
  has_volume-upsert_new = has_volume-put_all_new;
  upsert_volume_mount-All = put_all-All VolumeMount.name;
  upsert_env_vars-All = put_all-All EnvVar.name;
}

-- The account lists its secrets from the second look on, and of these the second one is there.
abbrev accounts : Accounts
accounts = record {
  get_service_account = λ n ns name. elim n [ zero ↦ ok [] | suc _ ↦ ok ("gone" ∷ "login" ∷ []) ];
  tokens = thrice TokenState;
}

abbrev cluster : Cluster
cluster = record {
  host = "https://k8s";
  ca_data = "ca";
  load_tls_files = none;
  accounts = accounts;
  service_account_token_key = "token";
  analytics_key = "ANALYTICS";
  analytics_client_id = "id";
  use_fqdn = "false";
  seconds_text = λ n. "10s";
}

accepted-EndsGood_example :
    (st : Storage) × (service : Option (UnsealerSpec × Unsealer)) × (new_storage kube server
      ≡ ok st)
    × (new_unsealer_service server.spec.unsealer none ≡ ok service)
    × EndsGood
        (IsBacked plain replacing replacing-CoreUtilLaws kube cluster server)
        (vault_apply plain replacing kube cluster server st service (get_pod_template server))
accepted-EndsGood_example =
    accepted-EndsGood plain replacing replacing-CoreUtilLaws kube cluster server accepted
      (λ claim. refl) tt

-- The token is found at the second look, though the first secret of the account is not there.
token : try_get_jwt_token_secret plain kube accounts "reviewer" "ns" ≡ some (ok "login")
unfolding try_get_jwt_token_secret token_round get_jwt_token_secret first_secret attempts
token = refl
