-- ===== src/Tests/Samples.antt =====
-- A custom resource, and a cluster that holds it and nothing else.
use mathlib.Core.Bool.{true≢false}
use hawtio_operator.Base.{◌==◌, ◌≡◌, ◌≢◌, sym, ap, ◌∙◌, eq_refl}
use hawtio_operator.Base.Int.{pos}
use hawtio_operator.Kube.{Key}
use hawtio_operator.Controller.Defaults.{DeploymentConfiguration}
use hawtio_operator.Base.{String, Bool, true, false, some, none, []}
use hawtio_operator.Base.Errors.{Error, status, Reason, Result, ok, err}
use hawtio_operator.Kube.{Time, Object, ConfigMap, Secret, ServiceAccount, OauthClient, named}
use hawtio_operator.Kube.Workload.{Deployment}
use hawtio_operator.Kube.Network.{Service, Route, Ingress, ConsoleLink}
use hawtio_operator.Api.{Hawtio, hawtio_object, new_hawtio}
use hawtio_operator.Api.Config.{empty_config}
use hawtio_operator.Capabilities.{ApiServerSpec, Semver}
use hawtio_operator.Util.Version.{BuildVariables}
use hawtio_operator.Resources.Deployment.{Platform}
use hawtio_operator.Resources.Config.Merge.{object, no_fields}
use hawtio_operator.Controller.Crypto.{Crypto}
use hawtio_operator.Controller.Cluster.{Client, Reconciler, OperationResult, created}

abbrev pub distinct : (a b : String) → (a == b) ≡ false → a ≢ b
distinct a b h e = true≢false (sym (eq_refl b) ∙ ap (λ s. s == b) (sym e) ∙ h)

abbrev pub sample : Hawtio
sample = record new_hawtio { metadata = named "online" "web" }

abbrev pub cluster_sample : Hawtio
cluster_sample = record sample { spec = record sample.spec { kind = "Cluster" } }

abbrev pub openshift : ApiServerSpec
openshift = record {
  version = "4.18.0";
  kube_version = "1.31";
  is_openshift4 = true;
  is_openshift43_plus = true;
  image_streams = true;
  routes = true;
  console_link = true;
}

abbrev pub variables : BuildVariables
variables = record {
  image_repository = "quay.io/hawtio/online";
  gateway_image_repository = "quay.io/hawtio/online-gateway";
  image_version = "2.4.0";
  gateway_image_version = "";
  operator_version = "2.0.0";
  legacy_serving_certificate_mount_version = "";
  product_name = "Hawtio";
  server_root_directory = "/usr/share/nginx/html";
  client_cert_common_name = "";
  additional_labels = "";
}

-- A version is a text, and no constraint holds.
abbrev pub plain_semver : Semver String
plain_semver = record { parse = λ s. ok s; print = λ s. s; constraint = λ s. ok (λ v. false) }

abbrev pub plain_platform : Platform String
plain_platform = record {
  getenv = λ name. "";
  semver = plain_semver;
  selector_to_labels = λ s. ok [];
}

abbrev pub not_there : Error
not_there = status Reason.not_found

abbrev with_created : {A : Type 0} → Result A → Result (A × OperationResult)
with_created (ok a) = ok (a, created)
with_created (err e) = err e

-- A client that finds nothing, and accepts every write.
abbrev pub empty_client : {W A : Type 0} → Object A → Client W A
empty_client o = record {
  object = o;
  get = λ key w. (err not_there, w);
  read = λ key w. (err not_there, w);
  create = λ a w. (ok a, w);
  dry_run = λ a w. (ok a, w);
  update = λ a w. (ok a, w);
  patch = λ a b w. (ok b, w);
  delete = λ a w. (err not_there, w);
  create_or_update = λ a f w. (let (answer, v) = f a w in (with_created answer, v));
  set_controller_reference = λ h a. ok a;
}

abbrev pub secret_object : Object Secret
secret_object = record { meta = λ a. a.metadata; with_meta = λ a m. record a { metadata = m } }

-- Texts are their own PEM, a certificate is its bytes, and its end is read off them by a function.
abbrev pub plain_crypto : {W : Type 0} → (String → Time) → Crypto W
plain_crypto end = record {
  pem_decode = λ pem. some pem;
  pem_encode = λ kind bytes. bytes;
  parse_certificate = λ bytes. ok (record { der = bytes; not_after = end bytes });
  parse_private_key = λ bytes. ok (record { pkcs1 = bytes });
  serial_number = λ w. (ok 1, w);
  generate_key = λ w. (ok (record { pkcs1 = "key" }), w);
  create_certificate = λ template parent own signer w. (ok "certificate", w);
}

-- A reconciler of a cluster with one kind of custom resources and of console links, and nothing else.
abbrev pub reconciler :
    {W : Type 0} → ApiServerSpec → Client W Hawtio → Client W ConsoleLink → Reconciler W String
reconciler api hawtio_client link_client = record {
  hawtios = hawtio_client;
  status_patch = hawtio_client.patch;
  status_update = hawtio_client.update;
  config_maps = empty_client (record {
    meta = λ (a : ConfigMap). a.metadata;
    with_meta = λ a m. record a { metadata = m };
  });
  secrets = empty_client secret_object;
  service_accounts = empty_client (record {
    meta = λ (a : ServiceAccount). a.metadata;
    with_meta = λ a m. record a { metadata = m };
  });
  deployments = empty_client (record {
    meta = λ (a : Deployment). a.metadata;
    with_meta = λ a m. record a { metadata = m };
  });
  services =
      empty_client (record {
        meta = λ (a : Service). a.metadata;
        with_meta = λ a m. record a { metadata = m };
      });
  routes =
      empty_client
        (record { meta = λ (a : Route). a.metadata; with_meta = λ a m. record a { metadata = m } });
  ingresses =
      empty_client (record {
        meta = λ (a : Ingress). a.metadata;
        with_meta = λ a m. record a { metadata = m };
      });
  oauth_clients = empty_client (record {
    meta = λ (a : OauthClient). a.metadata;
    with_meta = λ a m. record a { metadata = m };
  });
  console_links = link_client;
  now = λ w. (ok 1000, w);
  temporary_suffix = λ w. (ok "7", w);
  crypto = plain_crypto λ bytes. 0;
  add_year = λ t. t;
  under_test = false;
  api_spec = api;
  build_variables = variables;
  update_poller = none;
  platform = plain_platform;
  codec = record {
    files = record { read_file = λ path. ok ""; yaml_to_json = λ source. ok source };
    decode = λ source. ok (object no_fields);
    marshal = λ json. ok "{}";
    unmarshal = λ s. ok empty_config;
  };
  redirect_reference = λ name. ok name;
  selector_text = λ selector. ok "";
}

abbrev pub link_object : Object ConsoleLink
link_object = record { meta = λ a. a.metadata; with_meta = λ a m. record a { metadata = m } }

-- The cluster's state is the custom resource that it holds.
abbrev pub holding : ApiServerSpec → Reconciler Hawtio String
holding api =
    reconciler api
      (record (empty_client hawtio_object) { get = λ key w. (ok w, w); patch = λ a b w. (ok b, b) })
      (empty_client link_object)

-- The cluster's state is whether its console link is there.
abbrev pub linked : ApiServerSpec → Reconciler Bool String
linked api =
    reconciler api (empty_client hawtio_object)
      (record (empty_client link_object) { delete = λ link w. (ok tt, false) })

-- The cluster's state is the one secret that it holds.
abbrev pub keeping : Client Secret Secret
keeping = record (empty_client secret_object) {
  read = λ key w. (ok w, w);
  update = λ a w. (ok a, a);
}

abbrev pub key : Key
key = record { namespace = "web"; name = "online" }

abbrev pub test_configuration : DeploymentConfiguration
test_configuration = record {
  openshift_console_url = "";
  client_cert_secret = none;
  tls_route_secret = none;
  ca_cert_route_secret = none;
  serving_cert_secret = none;
  requeue_after = pos 0;
}
