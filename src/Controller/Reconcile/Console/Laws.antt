-- ===== src/Controller/Reconcile/Console/Laws.antt =====
-- pkg/controller/hawtio/reconcile_openshift.go: the link that a reconciled resource has.
use hawtio_operator.Base.{true, ◌≡◌, ◌⊎◌, inl, inr, refl, some, [], ◌∷◌, arith, eq_iff, ◌<>◌}
use hawtio_operator.Base.{◌==◌, Bool-cases}
use hawtio_operator.Base.Errors.{ok}
use hawtio_operator.Kube.{Key}
use hawtio_operator.Kube.Network.{Route, ConsoleLink}
use hawtio_operator.Api.{Hawtio, cluster_type, namespace_type}
use hawtio_operator.Api.Config.{HawtioConfig}
use hawtio_operator.Capabilities.{ApiServerSpec}
use hawtio_operator.Resources.ConsoleLink.{
  application_menu_location, namespace_dashboard_location, new_application_menu_link,
  new_namespace_dashboard_link, update_application_menu_link, update_namespace_dashboard_link,
}
use hawtio_operator.Controller.Cluster.{cluster_wide_name}
use hawtio_operator.Controller.Reconcile.Console.{should_exist, console_link_blueprint}

-- The link that suits the type of the resource: in the application menu for the type Cluster, on the
-- dashboard of the resource's namespace for the type Namespace, and to the route's host.
abbrev pub SuitsType : Hawtio → Key → Route → ConsoleLink → Type 0
SuitsType hawtio key route link =
    (link.spec.href ≡ "https://" <> route.spec.host)
    × ((hawtio.spec.kind ≡ cluster_type) × (link.spec.location ≡ application_menu_location)
        ⊎ (hawtio.spec.kind ≡ namespace_type)
          × (link.spec.location ≡ namespace_dashboard_location)
          × (link.spec.dashboard_namespaces ≡ some (key.namespace ∷ [])))

-- Where the link should exist, the callback has a link to want: the branch for an unsupported configuration is
-- never reached, and the link suits the type of the resource.
pub console_link_blueprint-SuitsType :
    (api : ApiServerSpec) (hawtio : Hawtio) (key : Key) (route : Route) (config : HawtioConfig)
    → should_exist api hawtio (some route) ≡ true
    → (link : ConsoleLink) × (console_link_blueprint api hawtio key route config ≡ ok link)
      × SuitsType hawtio key route link
unfolding should_exist console_link_blueprint new_application_menu_link new_namespace_dashboard_link
    update_application_menu_link update_namespace_dashboard_link
console_link_blueprint-SuitsType api hawtio key route config h =
    elim (Bool-cases (hawtio.spec.kind == cluster_type)) [
      | inl e ↦ (
        new_application_menu_link (cluster_wide_name key) key.namespace route config,
        rw e refl,
        (refl, inl (ground (arith, eq_iff hawtio.spec.kind cluster_type), refl)),
      )
      | inr e ↦
          let modern : api.is_openshift43_plus ≡ true = ground arith in
          (
            new_namespace_dashboard_link (cluster_wide_name key) key.namespace route config,
            rw (e, modern) refl,
            (refl, inr (ground (arith, eq_iff hawtio.spec.kind namespace_type), refl, refl)),
          )
    ]
