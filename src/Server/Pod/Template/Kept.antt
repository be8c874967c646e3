-- ===== src/Server/Pod/Template/Kept.antt =====
-- What every change of a pod template keeps: each mount names a volume, each variable satisfies a
-- predicate, and there is a container.
use vault_operator.Base.{
  String, ◌≡◌, ◌≢◌, refl, true, false, Bool-cases, inl, inr, List, [], ◌∷◌, ◌++◌, ◌==◌, arith,
  eq_iff,
}
use vault_operator.Server.Pod.{
  EnvVar, VolumeSource, Volume, VolumeMount, Container, PodTemplate, Applied, applied, refused,
  panicked, and_then, when, on_first, change_first, All, IsMade, has_volume,
}
use vault_operator.Server.Pod.Storage.{mount_first, add_env}

pub All-map :
    {A : Type 0} {P R : A → Type 0} (xs : List A) → ((x : A) → P x → R x) → All P xs → All R xs
All-map [] f h = tt
All-map (x ∷ xs) f (p, h) = (f x p, All-map xs f h)

pub All-append :
    {A : Type 0} (P : A → Type 0) (xs ys : List A) → All P xs → All P ys → All P (xs ++ ys)
All-append P [] ys h k = k
All-append P (x ∷ xs) ys (p, h) k = (p, All-append P xs ys h k)

abbrev pub IsMounted : List Volume → VolumeMount → Type 0
IsMounted volumes m = has_volume m.name volumes ≡ true

has_volume-append_old :
    (n : String) (vs new : List Volume) → has_volume n vs ≡ true → has_volume n (vs ++ new) ≡ true
has_volume-append_old n [] new h = absurd (ground arith)
has_volume-append_old n (x ∷ xs) new h = ground (arith, has_volume-append_old n xs new)

has_volume-append_new :
    (n : String) (vs new : List Volume) → has_volume n new ≡ true → has_volume n (vs ++ new) ≡ true
has_volume-append_new n [] new h = h
has_volume-append_new n (x ∷ xs) new h = ground (arith, has_volume-append_new n xs new h)

-- No volume's name is lost.
abbrev pub IsWider : List Volume → List Volume → Type 0
IsWider vs ws = (n : String) → has_volume n vs ≡ true → has_volume n ws ≡ true

module _ (Q : EnvVar → Type 0) where
  pub IsMade-wider :
      (vs ws : List Volume) (cs : List Container)
      → IsWider vs ws
      → All (IsMade (IsMounted vs) Q) cs
      → All (IsMade (IsMounted ws) Q) cs
  IsMade-wider vs ws cs wider =
      All-map cs (λ c made. (All-map c.volume_mounts (λ m. wider m.name) made.0, made.1))

  pub record IsGood (pt : PodTemplate) : Type 0 where
    pub init_containers : All (IsMade (IsMounted pt.volumes) Q) pt.init_containers
    pub containers : All (IsMade (IsMounted pt.volumes) Q) pt.containers
    pub some_container : pt.containers ≢ []

  -- A template that is returned is good, and there is no panic.
  abbrev pub EndsGood : Applied → Type 0
  EndsGood (applied pt) = IsGood pt
  EndsGood (refused e) = Unit
  EndsGood panicked = ⊥

  pub and_then-EndsGood :
      (a : Applied) (next : PodTemplate → Applied)
      → EndsGood a
      → ((pt : PodTemplate) → IsGood pt → EndsGood (next pt))
      → EndsGood (and_then a next)
  and_then-EndsGood (applied pt) next good rest = rest pt good
  and_then-EndsGood (refused e) next good rest = tt
  and_then-EndsGood panicked next good rest = elim good [ ]

  pub when-EndsGood :
      (name : String) (change : PodTemplate → Applied) (pt : PodTemplate)
      → IsGood pt
      → ((name == "") ≡ false → EndsGood (change pt))
      → EndsGood (when name change pt)
  when-EndsGood name change pt good changed = elim (Bool-cases (name == "")) [
    | inl p ↦ rw p good
    | inr p ↦ rw p (changed p)
  ]

  change_lem :
      (change : Container → Container) (pt : PodTemplate) (cs : List Container)
      → All (IsMade (IsMounted pt.volumes) Q) pt.init_containers
      → All (IsMade (IsMounted pt.volumes) Q) cs
      → cs ≢ []
      → ((c : Container)
          → IsMade (IsMounted pt.volumes) Q c
          → IsMade (IsMounted pt.volumes) Q (change c))
      → EndsGood (change_first change pt cs)
  change_lem change pt [] inits made some_container kept = absurd (some_container refl)
  change_lem change pt (c ∷ cs) inits made some_container kept = record {
    init_containers = inits;
    containers = (kept c made.0, made.1);
    some_container = λ p. ground arith;
  }

  first_lem :
      (change : Container → Container) (pt : PodTemplate)
      → IsGood pt
      → ((c : Container)
          → IsMade (IsMounted pt.volumes) Q c
          → IsMade (IsMounted pt.volumes) Q (change c))
      → EndsGood (on_first change pt)
  first_lem change pt good =
      change_lem change pt pt.containers good.init_containers good.containers good.some_container

  pub add_env-EndsGood :
      (envs : List EnvVar) (pt : PodTemplate) → All Q envs → IsGood pt → EndsGood (add_env envs pt)
  unfolding add_env
  add_env-EndsGood envs pt h good =
      first_lem (λ c. record c { env = c.env ++ envs }) pt good
        (λ c made. (made.0, All-append Q c.env envs made.1 h))

  pub mount_first-EndsGood :
      (name : String) (source : VolumeSource) (path : String) (pt : PodTemplate)
      → IsGood pt
      → EndsGood (mount_first name source path pt)
  unfolding mount_first
  mount_first-EndsGood name source path pt good =
      let new : List Volume = record { name = name; source = source } ∷ [] in
      let ws = pt.volumes ++ new in
      let wider : IsWider pt.volumes ws = λ n. has_volume-append_old n pt.volumes new in
      first_lem _ (record pt { volumes = ws })
        (record {
          init_containers =
              IsMade-wider pt.volumes ws pt.init_containers wider good.init_containers;
          containers = IsMade-wider pt.volumes ws pt.containers wider good.containers;
          some_container = good.some_container;
        })
        (λ c made. (
          All-append (IsMounted ws) c.volume_mounts _ made.0 (
            has_volume-append_new name pt.volumes new (ground (arith, (eq_iff name name).1 refl)),
            tt,
          ),
          made.1,
        ))

-- What is good for one predicate on the variables is good for a wider one.
module _ (Q R : EnvVar → Type 0) (wide : (e : EnvVar) → Q e → R e) where
  containers_lem :
      (vs : List Volume) (cs : List Container)
      → All (IsMade (IsMounted vs) Q) cs
      → All (IsMade (IsMounted vs) R) cs
  containers_lem vs cs = All-map cs (λ c made. (made.0, All-map c.env wide made.1))

  IsGood-wide : (pt : PodTemplate) → IsGood Q pt → IsGood R pt
  IsGood-wide pt good = record {
    init_containers = containers_lem pt.volumes pt.init_containers good.init_containers;
    containers = containers_lem pt.volumes pt.containers good.containers;
    some_container = good.some_container;
  }

  pub EndsGood-wide : (a : Applied) → EndsGood Q a → EndsGood R a
  EndsGood-wide (applied pt) good = IsGood-wide pt good
  EndsGood-wide (refused e) good = tt
  EndsGood-wide panicked good = absurd good
