-- ===== src/Server/Pod/Template/Own.antt =====
-- The operator's own volumes and mounts leave a good pod template.
use vault_operator.Base.{
  ℕ, suc, ◌≡◌, refl, true, Option-cases, inl, inr, List, [], ◌∷◌, arith, eq_iff,
}
use Prim.Native.String
use vault_operator.Meta.{Vendor}
use vault_operator.Server.Spec.{VaultServer}
use vault_operator.Server.Pod.{
  EnvVar, VolumeSource, Volume, Container, PodTemplate, zero_container, CoreUtil, CoreUtilLaws, All,
  IsMade, has_volume, last_named,
}
use vault_operator.Server.Pod.Template.{
  init_container, own_volumes, add_data, own_apply, data_name, mount, volume,
}
use vault_operator.Server.Pod.Template.Kept.{All-map, IsMounted, IsWider, IsMade-wider, IsGood}
use vault_operator.Server.Pod.Template.Modes.{last_named_lem}

module _ (v : Vendor) (u : CoreUtil) (laws : CoreUtilLaws u) (Q : EnvVar → Type 0) where
  upsert-IsWider : (vs new : List Volume) → IsWider vs (u.upsert_volume vs new)
  upsert-IsWider vs new n = laws.has_volume-upsert_old n vs new

  own_volumes-IsWider :
      (vs : VaultServer) (volumes : List Volume) → IsWider volumes (own_volumes v u vs volumes)
  own_volumes-IsWider vs volumes n h = elim (Option-cases vs.spec.config_source) [
    | inl p ↦ rw p (upsert-IsWider _ _ n (upsert-IsWider volumes _ n h))
    | inr (source, p) ↦
        rw p (upsert-IsWider _ _ n (upsert-IsWider _ _ n (upsert-IsWider volumes _ n h)))
  ]

  -- The mounts of the initial container.
  init_container_lem :
      (vs : VaultServer) (volumes : List Volume)
      → All (IsMounted (own_volumes v u vs volumes)) (init_container v u vs).volume_mounts
  init_container_lem vs volumes = elim (Option-cases vs.spec.config_source) [
    | inl p ↦ rw p (
        laws.upsert_volume_mount-All _ [] _ tt (
          upsert-IsWider _ _ "config" (laws.has_volume-upsert_new "config" volumes _ refl),
          (
            upsert-IsWider _ _ "controller-config"
                (laws.has_volume-upsert_new "controller-config" volumes _ refl),
            tt,
          ),
        ))
    | inr (source, p) ↦ rw p (
        laws.upsert_volume_mount-All _ _ _
          (laws.upsert_volume_mount-All _ [] _ tt (
            upsert-IsWider _ _ "config"
                (upsert-IsWider _ _ "config" (laws.has_volume-upsert_new "config" volumes _ refl)),
            (
              upsert-IsWider _ _ "controller-config" (
                  upsert-IsWider _ _ "controller-config"
                    (laws.has_volume-upsert_new "controller-config" volumes _ refl)),
              tt,
            ),
          ))
          (
            upsert-IsWider _ _ "user-config" (laws.has_volume-upsert_new "user-config" _ _ refl),
            tt,
          ))
  ]

  -- The mounts of the Vault container.
  config_lem :
      (vs : VaultServer) (volumes : List Volume)
      → has_volume "config" (own_volumes v u vs volumes) ≡ true
  config_lem vs volumes = elim (Option-cases vs.spec.config_source) [
    | inl p ↦
        rw p (upsert-IsWider _ _ "config" (laws.has_volume-upsert_new "config" volumes _ refl))
    | inr (source, p) ↦ rw p (
        upsert-IsWider _ _ "config"
          (upsert-IsWider _ _ "config" (laws.has_volume-upsert_new "config" volumes _ refl)))
  ]

  add_data_lem :
      (n : ℕ) (sources : List VolumeSource) (cont : Container) (volumes : List Volume)
      → IsMade (IsMounted volumes) Q cont
      → let r = add_data v u n sources cont volumes in
        IsMade (IsMounted r.1) Q r.0 × IsWider volumes r.1
  unfolding add_data
  add_data_lem n [] cont volumes made = (made, λ m h. h)
  add_data_lem n (source ∷ sources) cont volumes made =
      let name = data_name n in
      let new : List Volume = volume name source ∷ [] in
      let there : has_volume name new ≡ true = ground (arith, (eq_iff name name).1 refl) in
      let ws = u.upsert_volume volumes new in
      let filled : Container = record cont {
        volume_mounts =
            u.upsert_volume_mount cont.volume_mounts
              (mount name (String.◌++◌ "/etc/vault/data/" name) ∷ []);
      } in
      let mounts =
        laws.upsert_volume_mount-All (IsMounted ws) cont.volume_mounts _
          (All-map cont.volume_mounts (λ m. upsert-IsWider volumes new m.name) made.0)
          (laws.has_volume-upsert_new name volumes new there, tt) in
      let (made', wider) = add_data_lem (suc n) sources filled ws (mounts, made.1) in
      (made', λ m h. wider m (upsert-IsWider volumes new m h))

  pub own_apply-IsGood :
      (vs : VaultServer) (pt : PodTemplate) → IsGood Q pt → IsGood Q (own_apply v u vs pt)
  unfolding own_apply
  own_apply-IsGood vs pt good =
      let own = own_volumes v u vs pt.volumes in
      let own_wider : IsWider pt.volumes own = own_volumes-IsWider vs pt.volumes in
      let found = last_named "vault" zero_container pt.containers in
      let found_made =
        last_named_lem (IsMade (IsMounted pt.volumes) Q) "vault" zero_container pt.containers
          (tt, tt) good.containers in
      let cont : Container = record found {
        volume_mounts =
            u.upsert_volume_mount found.volume_mounts (
              mount "vault-tls-secret" "/etc/vault/tls/" ∷ mount "config" "/etc/vault/config" ∷ []);
      } in
      let mounts =
        laws.upsert_volume_mount-All (IsMounted own) found.volume_mounts _
          (All-map found.volume_mounts (λ m. own_wider m.name) found_made.0)
          (
            laws.has_volume-upsert_new "vault-tls-secret" _ _ refl,
            (config_lem vs pt.volumes, tt),
          ) in
      let (made, wider) = add_data_lem 0 vs.spec.data_sources cont own (mounts, found_made.1) in
      let all_wider : IsWider pt.volumes (add_data v u 0 vs.spec.data_sources cont own).1 =
        λ m h. wider m (own_wider m h) in
      record {
        init_containers =
            laws.upsert_container-All _ Q pt.init_containers _
              (IsMade-wider Q pt.volumes _ pt.init_containers all_wider good.init_containers)
              (
                All-map (init_container v u vs).volume_mounts (λ m. wider m.name)
                    (init_container_lem vs pt.volumes),
                tt,
              );
        containers =
            laws.upsert_container-All _ Q pt.containers _
              (IsMade-wider Q pt.volumes _ pt.containers all_wider good.containers) made;
        some_container = laws.upsert_container-ne-nil pt.containers _;
      }
