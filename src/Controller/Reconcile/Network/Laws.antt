-- ===== src/Controller/Reconcile/Network/Laws.antt =====
-- pkg/controller/hawtio/reconcile_network.go: what an update of a live object keeps.
use hawtio_operator.Base.{String, ◌≡◌, refl, sym, ap, ◌∙◌, eq_iff, List, [], ◌∷◌, map, arith}
use hawtio_operator.Base.{◌==◌, if◌then◌else◌, All}
use hawtio_operator.Base.Errors.{ok}
use hawtio_operator.Base.Act.{Act, Yields, Yields-bind, Yields-after, Yields-pure}
use hawtio_operator.Kube.Network.{Service, ServicePort, Route}
use hawtio_operator.Api.{Hawtio}
use hawtio_operator.Resources.Service.{new_service}
use hawtio_operator.Resources.Route.{new_route}
use hawtio_operator.Controller.Cluster.{Client, Reconciler}
use hawtio_operator.Controller.Defaults.{DeploymentConfiguration, hydrate_defaults}
use hawtio_operator.Controller.Reconcile.Network.{
  without_node_port, service_mutated, service_integrity, route_mutated, route_integrity,
}

-- What `hydrateDefaults` yields was restored from the blueprint.
abbrev Restored : {A : Type 0} → A → (A → A → A) → A → Type 0
Restored {A} blueprint integrity a = (h : A) × (integrity blueprint h ≡ a)

pub hydrate_defaults-Yields :
    {W A : Type 0} (client : Client W A) (suffix : Act W String) (blueprint : A)
    (integrity : A → A → A)
    → Yields (Restored blueprint integrity) (hydrate_defaults client suffix blueprint integrity)
unfolding hydrate_defaults
hydrate_defaults-Yields client suffix blueprint integrity =
    Yields-after (Restored blueprint integrity) suffix _ λ text.
      Yields-after (Restored blueprint integrity) _ _
        λ h. Yields-pure (Restored blueprint integrity) (integrity blueprint h) (h, refl)

no_node_ports : (l : List ServicePort) → All (λ p. p.node_port ≡ 0) (map without_node_port l)
no_node_ports [] = tt
no_node_ports (p ∷ l) = (refl, no_node_ports l)

-- The addresses of the live service, and no node port.
abbrev KeepsAddress : Service → Service → Type 0
KeepsAddress live s =
    (s.spec.cluster_ip ≡ live.spec.cluster_ip) × All (λ p. p.node_port ≡ 0) s.spec.ports

host_if_unnamed :
    (source existing hydrated : String)
    → source ≡ ""
    → (if source == "" then existing else hydrated) ≡ existing
host_if_unnamed source existing hydrated e = ground (arith, eq_iff source "")

module _ {W V : Type 0} (r : Reconciler W V) (hawtio : Hawtio) where
  keeps_address : (live : Service) → Yields (KeepsAddress live) (service_mutated r hawtio live)
  unfolding service_mutated service_integrity
  keeps_address live =
      let blueprint = new_service hawtio r.api_spec in
      let integrity = service_integrity live.spec.cluster_ip live.spec.cluster_ips in
      Yields-after (KeepsAddress live) _ _ λ s.
        Yields-bind (Restored blueprint integrity) (KeepsAddress live) _ _
          (hydrate_defaults-Yields r.services r.temporary_suffix blueprint integrity)
          λ hydrated (h, e). Yields-pure (KeepsAddress live) _ (rw (sym e) (refl, no_node_ports _))

  -- The update of a service keeps the cluster address of the live one and asks for no node port, whatever
  -- the server's dry run fills in.
  pub service_mutated-keeps :
      (live s : Service) (w v : W)
      → service_mutated r hawtio live w ≡ (ok s, v)
      → (s.spec.cluster_ip ≡ live.spec.cluster_ip) × All (λ p. p.node_port ≡ 0) s.spec.ports
  service_mutated-keeps live s w v e = keeps_address live w v s e

  keeps_host :
      hawtio.spec.route_host_name ≡ ""
      → (config : DeploymentConfiguration) (live : Route)
      → Yields (λ s. s.spec.host ≡ live.spec.host) (route_mutated r hawtio config live)
  unfolding route_mutated route_integrity new_route
  keeps_host unnamed config live =
      let Kept : Route → Type 0 = λ s. s.spec.host ≡ live.spec.host in
      let blueprint = new_route hawtio config.tls_route_secret config.ca_cert_route_secret in
      let integrity = route_integrity live.spec.host in
      Yields-after Kept _ _ λ s.
        Yields-bind (Restored blueprint integrity) Kept _ _
          (hydrate_defaults-Yields r.routes r.temporary_suffix blueprint integrity)
          λ hydrated (h, e). Yields-pure Kept _ (
            ap (λ (o : Route). o.spec.host) (sym e)
            ∙ host_if_unnamed hawtio.spec.route_host_name live.spec.host h.spec.host unnamed)

  -- The update of a route whose host is left to the cluster keeps the host that the cluster gave, whatever
  -- host the server's dry run makes of the temporary name.
  pub route_mutated-keeps :
      (config : DeploymentConfiguration) (live s : Route) (w v : W)
      → hawtio.spec.route_host_name ≡ ""
      → route_mutated r hawtio config live w ≡ (ok s, v)
      → s.spec.host ≡ live.spec.host
  route_mutated-keeps config live s w v unnamed e = keeps_host unnamed config live w v s e
