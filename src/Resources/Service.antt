-- ===== src/Resources/Service.antt =====
-- pkg/resources/service.go and pkg/resources/service_account.go.
use hawtio_operator.Base.{ℕ, String, ◌<>◌, true, false, List, [], ◌∷◌, ◌++◌}
use hawtio_operator.Base.{◌==◌, if◌then◌else◌}
use hawtio_operator.Base.Dict.{Dict, insert}
use hawtio_operator.Base.Errors.{Result, ok, ◌>>=◌}
use hawtio_operator.Kube.{ObjectMeta, ServiceAccount, named}
use hawtio_operator.Kube.Network.{Service}
use hawtio_operator.Api.{Hawtio, namespace_type}
use hawtio_operator.Capabilities.{ApiServerSpec}
use hawtio_operator.Util.Version.{is_ssl}
use hawtio_operator.Resources.Labels.{
  labels_for_hawtio, propagate_labels, propagate_annotations, resource_labels, label_app_key,
}
use hawtio_operator.Resources.Container.{container_port_name}

abbrev pub plain_service_port : ℕ
plain_service_port = 80

abbrev pub ssl_service_port : ℕ
ssl_service_port = 443

-- The metadata of the `NewDefault…` functions: the resource's own name and namespace.
abbrev pub default_meta : Hawtio → ObjectMeta
default_meta hawtio = named hawtio.metadata.name hawtio.metadata.namespace

-- `NewDefaultService`
abbrev pub new_default_service : Hawtio → Service
new_default_service hawtio = record {
  metadata = default_meta hawtio;
  spec = record {
    ports = [];
    selector = [];
    session_affinity = "";
    publish_not_ready_addresses = false;
    cluster_ip = "";
    cluster_ips = [];
  };
}

-- `NewService`
unfoldable pub new_service : Hawtio → ApiServerSpec → Service
new_service hawtio api =
    let name = hawtio.metadata.name in
    record {
      metadata = record (default_meta hawtio) {
        labels = propagate_labels hawtio ((label_app_key, "hawtio") ∷ []);
        annotations =
            propagate_annotations hawtio
              (("service.beta.openshift.io/serving-cert-secret-name", name <> "-tls-serving") ∷ []);
      };
      spec = record {
        ports =
            record {
              name = name;
              protocol = "TCP";
              port = if is_ssl hawtio api then ssl_service_port else plain_service_port;
              target_port = container_port_name;
              node_port = 0;
            }
            ∷ [];
        selector = labels_for_hawtio name;
        session_affinity = "None";
        publish_not_ready_addresses = true;
        cluster_ip = "";
        cluster_ips = [];
      };
    }

-- `NewDefaultServiceAccount`
abbrev pub new_default_service_account : Hawtio → ServiceAccount
new_default_service_account hawtio = record { metadata = default_meta hawtio }

-- `redirect_reference` is `createRedirectReferenceString`: the JSON text of a reference to a route.
module _ (redirect_reference : String → Result String) where
  -- The loop over the routes.
  unfoldable pub annotate_routes : List String → Dict String → Result (Dict String)
  annotate_routes [] annotations = ok annotations
  annotate_routes (name ∷ routes) annotations = do
    ref ← redirect_reference name
    annotate_routes routes (
        insert ("serviceaccounts.openshift.io/oauth-redirectreference." <> name) ref (
          insert ("serviceaccounts.openshift.io/oauth-redirecturi." <> name) "https://"
            annotations))

  -- `NewServiceAccount`
  unfoldable pub new_service_account : Hawtio → Result ServiceAccount
  unfolding annotate_routes
  new_service_account hawtio = do
    annotations ←
        if hawtio.spec.kind == namespace_type
        then annotate_routes (hawtio.spec.external_routes ++ hawtio.metadata.name ∷ []) []
        else ok []
    let labels = resource_labels hawtio
    ok (record {
      metadata = record (default_meta hawtio) { labels = labels; annotations = annotations };
    })
