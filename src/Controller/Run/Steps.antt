-- ===== src/Controller/Run/Steps.antt =====
-- pkg/controller/hawtio: each reconciliation succeeds on a cluster that accepts its requests.
use hawtio_operator.Base.{String, ◌&&◌, refl, ap, none, List, [], ◌∷◌, ◌++◌, inl, inr, Bool-cases}
use hawtio_operator.Base.{◌==◌}
use hawtio_operator.Base.Dict.{Dict}
use hawtio_operator.Base.Errors.{Result}
use hawtio_operator.Base.Act.{pure, ◌>>=◌}
use hawtio_operator.Kube.Network.{Ingress}
use hawtio_operator.Base.Succeeds.{Succeeds, IsOk, Succeeds-else, Succeeds-bind, Succeeds-pure}
use hawtio_operator.Api.{Hawtio, namespace_type}
use hawtio_operator.Resources.Service.{
  annotate_routes, new_service_account, new_default_service_account,
}
use hawtio_operator.Resources.Config.{new_config_map}
use hawtio_operator.Controller.Cluster.{Reconciler, unchanged}
use hawtio_operator.Controller.Reconcile.Config.{
  create_or_adopt, reconcile_service_account, service_account_mutated, reconcile_config_map,
  config_map_mutated,
}
use hawtio_operator.Resources.Config.{new_default_config_map}
use hawtio_operator.Resources.Service.{new_service, new_default_service}
use hawtio_operator.Resources.Ingress.{new_ingress, new_default_ingress}
use hawtio_operator.Controller.Defaults.{DeploymentConfiguration}
use hawtio_operator.Controller.Reconcile.Network.{
  reconcile_service, service_mutated, service_integrity, reconcile_ingress, ingress_mutated,
  ingress_integrity, wrapped_ingress,
}
use hawtio_operator.Controller.Run.Works.{
  Works, create_or_adopt-Succeeds, hydrate_defaults-Succeeds, IsAccountChange, IsConfigChange,
  IsServiceChange, IsServiceBlueprint, IsIngressChange, IsIngressBlueprint,
}

annotate_routes-IsOk :
    (f : String → Result String) (routes : List String) (annotations : Dict String)
    → ((name : String) → IsOk (f name))
    → IsOk (annotate_routes f routes annotations)
unfolding annotate_routes
annotate_routes-IsOk f [] annotations h = (annotations, refl)
annotate_routes-IsOk f (name ∷ routes) annotations h =
    let (ref, e) = h name in rw e (annotate_routes-IsOk f routes _ h)

module _ {W V : Type 0} (r : Reconciler W V) (hawtio : Hawtio) (works : Works r hawtio) where
  new_service_account-IsOk : IsOk (new_service_account r.redirect_reference hawtio)
  unfolding new_service_account
  new_service_account-IsOk = elim (Bool-cases (hawtio.spec.kind == namespace_type)) [
    | inl k ↦
        let (annotations, e) =
          annotate_routes-IsOk r.redirect_reference
            (hawtio.spec.external_routes ++ hawtio.metadata.name ∷ []) [] works.references in
        rw (k, e) (_, refl)
    | inr k ↦ rw k (_, refl)
  ]

  pub reconcile_service_account-Succeeds : Succeeds (reconcile_service_account r hawtio)
  unfolding reconcile_service_account
  reconcile_service_account-Succeeds =
      create_or_adopt-Succeeds r.service_accounts hawtio (new_default_service_account hawtio)
        (IsAccountChange r hawtio) works.service_accounts (service_account_mutated r hawtio) refl
        (λ live ours w.
          let (account, e) = works.service_accounts.owns live ours in
          let (wanted, e') = new_service_account-IsOk in rw (e, e') (_, w, refl, tt))

  new_config_map-IsOk : IsOk (new_config_map r.codec hawtio r.api_spec)
  unfolding new_config_map
  new_config_map-IsOk =
      let (bytes, default, e, e', (text, e'')) = works.defaults in rw (e, e', e'') (_, refl)

  pub reconcile_config_map-Succeeds : Succeeds (reconcile_config_map r hawtio)
  unfolding reconcile_config_map
  reconcile_config_map-Succeeds =
      create_or_adopt-Succeeds r.config_maps hawtio (new_default_config_map hawtio)
        (IsConfigChange r hawtio) works.config_maps (config_map_mutated r hawtio) refl
        (λ live ours w.
          let (config_map, e) = works.config_maps.owns live ours in
          let (wanted, e') = new_config_map-IsOk in rw (e, e') (_, w, refl, tt))

  pub reconcile_service-Succeeds : Succeeds (reconcile_service r hawtio)
  unfolding reconcile_service
  reconcile_service-Succeeds =
      create_or_adopt-Succeeds r.services hawtio (new_default_service hawtio)
        (IsServiceChange r hawtio) works.services (service_mutated r hawtio) refl
        (λ live ours w.
          let (s, e) = works.services.owns live ours in
          let (hydrated, v, e', _) =
            hydrate_defaults-Succeeds r.services (IsServiceBlueprint r hawtio) r.temporary_suffix
              (new_service hawtio r.api_spec)
              (service_integrity live.spec.cluster_ip live.spec.cluster_ips) works.service_dry_runs
              refl works.suffixes w in
          rw (e, e') (_, v, refl, tt))

  ingress_mutated-Succeeds :
      (config : DeploymentConfiguration) (live : Ingress)
      → works.ingresses.IsOurs live
      → Succeeds (ingress_mutated r hawtio config live)
  unfolding ingress_mutated
  ingress_mutated-Succeeds config live ours w =
      let (s, e) = works.ingresses.owns live ours in
      let (hydrated, v, e', _) =
        hydrate_defaults-Succeeds r.ingresses (IsIngressBlueprint r hawtio) r.temporary_suffix
          (new_ingress hawtio r.api_spec config.serving_cert_secret) ingress_integrity
          works.ingress_dry_runs (config.serving_cert_secret, refl) works.suffixes w in
      rw (e, e') (_, v, refl, tt)

  pub reconcile_ingress-Succeeds :
      (config : DeploymentConfiguration) → Succeeds (reconcile_ingress r hawtio config)
  unfolding reconcile_ingress
  reconcile_ingress-Succeeds config =
      let make =
        create_or_adopt r.ingresses (new_default_ingress hawtio)
          (ingress_mutated r hawtio config) in
      Succeeds-else (r.api_spec.is_openshift4 && r.api_spec.routes) (pure (none, unchanged))
        (make >>= λ done. pure (wrapped_ingress r done))
        (ap (λ b. b && r.api_spec.routes) works.on_kubernetes)
        (Succeeds-bind make (λ done. pure (wrapped_ingress r done))
          (create_or_adopt-Succeeds r.ingresses hawtio (new_default_ingress hawtio)
            (IsIngressChange r hawtio) works.ingresses (ingress_mutated r hawtio config)
            (config, refl) (ingress_mutated-Succeeds config))
          (λ done. Succeeds-pure (wrapped_ingress r done)))
