-- ===== src/Server/Pod.antt =====
-- The pod template of a Vault server, as far as the operator fills it: the volumes, and of the
-- containers the names, arguments, environment and mounts. The helpers of
-- vendor/kmodules.xyz/client-go/core/v1 are parameters, with what they are documented to do as laws.
pub mod Storage
pub mod Token
pub mod Unsealer
pub mod Template
use vault_operator.Base.{
  String, ◌≡◌, ◌≢◌, Bool, true, false, Option, none, some, List, [], ◌∷◌, ◌++◌, ◌==◌, if◌then◌else◌,
  Error,
}

-- `core.EnvVar`: a value, or the key of a secret.
pub data EnvSource : Type 0 where
  value : String → EnvSource
  secret_key_ref : String → String → EnvSource

pub record EnvVar : Type 0 where
  pub name : String
  pub source : EnvSource

-- `core.VolumeSource`; `given` is one of the user's.
pub data VolumeSource : Type 0 where
  empty_dir : VolumeSource
  config_map secret persistent_volume_claim given : String → VolumeSource

pub record Volume : Type 0 where
  pub name : String
  pub source : VolumeSource

pub record VolumeMount : Type 0 where
  pub name : String
  pub mount_path : String

pub record Container : Type 0 where
  pub name : String
  pub args : List String
  pub env : List EnvVar
  pub volume_mounts : List VolumeMount

pub record PodTemplate : Type 0 where
  pub volumes : List Volume
  pub init_containers : List Container
  pub containers : List Container

-- `var cont core.Container`.
abbrev pub zero_container : Container
zero_container = record { name = ""; args = []; env = []; volume_mounts = [] }

pub record CoreUtil : Type 0 where
  pub upsert_container : List Container → Container → List Container
  pub upsert_volume : List Volume → List Volume → List Volume
  pub upsert_volume_mount : List VolumeMount → List VolumeMount → List VolumeMount
  pub upsert_env_vars : List EnvVar → List EnvVar → List EnvVar

-- What `Apply` comes to: the changed template, an error, or a panic where there is no container.
pub data Applied : Type 0 where
  applied : PodTemplate → Applied
  refused : Error → Applied
  panicked : Applied

-- `err := …; if err != nil { return err }`.
abbrev pub and_then : Applied → (PodTemplate → Applied) → Applied
and_then (applied pt) next = next pt
and_then (refused e) next = refused e
and_then panicked next = panicked

-- `if name != "" { … }`.
abbrev pub when : String → (PodTemplate → Applied) → PodTemplate → Applied
when name change pt = if name == "" then applied pt else change pt

-- `pt.Spec.Containers[0]` is changed.
abbrev pub change_first : (Container → Container) → PodTemplate → List Container → Applied
change_first change pt [] = panicked
change_first change pt (c ∷ cs) = applied (record pt { containers = change c ∷ cs })

abbrev pub on_first : (Container → Container) → PodTemplate → Applied
on_first change pt = change_first change pt pt.containers

-- The last container of a name, as the loops over the containers leave it in `cont`.
abbrev pub last_named : String → Container → List Container → Container
last_named name cont [] = cont
last_named name cont (c ∷ cs) = last_named name (if c.name == name then c else cont) cs

-- Predicates on lists, and what holds of a container.
abbrev pub All : {A : Type 0} → (A → Type 0) → List A → Type 0
All P [] = Unit
All P (x ∷ xs) = P x × All P xs

abbrev pub has_volume : String → List Volume → Bool
has_volume n [] = false
has_volume n (x ∷ xs) = if x.name == n then true else has_volume n xs

-- The mounts satisfy one predicate and the variables another.
abbrev pub IsMade : (VolumeMount → Type 0) → (EnvVar → Type 0) → Container → Type 0
IsMade P Q c = All P c.volume_mounts × All Q c.env

-- An upsert replaces what has the name of the new one or adds the new one: every mount and variable
-- is an old or a new one, and no volume's name is lost.
pub record CoreUtilLaws (u : CoreUtil) : Type 1 where
  pub upsert_container-All :
      (P : VolumeMount → Type 0) (Q : EnvVar → Type 0) (cs : List Container) (c : Container)
      → All (IsMade P Q) cs
      → IsMade P Q c
      → All (IsMade P Q) (u.upsert_container cs c)
  pub upsert_container-ne-nil : (cs : List Container) (c : Container) → u.upsert_container cs c ≢ []
  pub has_volume-upsert_old :
      (n : String) (vs new : List Volume)
      → has_volume n vs ≡ true
      → has_volume n (u.upsert_volume vs new) ≡ true
  pub has_volume-upsert_new :
      (n : String) (vs new : List Volume)
      → has_volume n new ≡ true
      → has_volume n (u.upsert_volume vs new) ≡ true
  pub upsert_volume_mount-All :
      (P : VolumeMount → Type 0) (ms new : List VolumeMount)
      → All P ms
      → All P new
      → All P (u.upsert_volume_mount ms new)
  pub upsert_env_vars-All :
      (Q : EnvVar → Type 0) (es new : List EnvVar)
      → All Q es
      → All Q new
      → All Q (u.upsert_env_vars es new)
