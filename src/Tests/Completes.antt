-- ===== src/Tests/Completes.antt =====
-- The theorem on a whole call, at a cluster that accepts every request.
use hawtio_operator.Base.{String, false, [], ◌∷◌}
use hawtio_operator.Base.Errors.{ok}
use hawtio_operator.Kube.Workload.{Deployment}
use hawtio_operator.Api.{Hawtio}
use hawtio_operator.Capabilities.{ApiServerSpec}
use hawtio_operator.Resources.Deployment.{new_default_deployment}
use hawtio_operator.Resources.Container.{new_hawtio_container, new_gateway_container}
use hawtio_operator.Controller.Cluster.{Reconciler}
use hawtio_operator.Controller.Run.Works.{Works}
use hawtio_operator.Base.Act.{Act}
use hawtio_operator.Tests.Samples.{sample, openshift, holding}

abbrev kubernetes : ApiServerSpec
kubernetes = record openshift { is_openshift4 = false; is_openshift43_plus = false; routes = false }

-- The deployment with its two containers
abbrev running : Deployment
running =
    let d = new_default_deployment sample in
    let getenv : String → String = λ name. "" in
    record d {
      spec = record d.spec {
        template = record d.spec.template {
          containers =
              new_hawtio_container getenv sample kubernetes "" "2.4.0" ""
              ∷ new_gateway_container getenv sample kubernetes "2.4.0" ""
              ∷ [];
        };
      };
    }

-- The cluster's state is the custom resource that it holds.
abbrev cluster : Reconciler Hawtio String
cluster = record (holding kubernetes) {
  deployments = record (holding kubernetes).deployments { get = λ k w. (ok running, w) };
}

abbrev prepared : Hawtio
prepared = record sample {
  metadata = record sample.metadata { finalizers = "hawt.io/finalizer" ∷ [] };
  spec = record sample.spec { kind = "Cluster" };
  status = record sample.status { phase = "Initialized" };
}
