-- ===== src/Resources/Container.antt =====
-- pkg/resources/container.go: the console's container and the gateway's.
use hawtio_operator.Base.{ℕ, String, ◌<>◌, not, ◌&&◌, Option, none, some, List, [], ◌∷◌, ◌++◌}
use hawtio_operator.Base.{◌==◌, starts_with, if◌then◌else◌}
use hawtio_operator.Base.Int.{ℤ, pos}
use hawtio_operator.Kube.Workload.{EnvVar, Container, HttpGetAction}
use hawtio_operator.Api.{Hawtio}
use hawtio_operator.Capabilities.{ApiServerSpec}
use hawtio_operator.Util.Version.{is_ssl}
use hawtio_operator.Resources.Environment.{
  env_vars_for_hawtio, env_vars_for_hawtio_ocp4, env_vars_for_nginx, env_vars_for_gateway,
  env_vars_for_rbac, when,
}

abbrev pub container_port_name : String
container_port_name = "nginx"

abbrev pub container_gateway_port_name : String
container_gateway_port_name = "express"

-- `Connect`, with its two values
pub record Connect : Type 0 where
  pub port : ℕ
  pub protocol : String

abbrev pub plain_connect : Connect
plain_connect = record { port = 8080; protocol = "HTTP" }

abbrev pub ssl_connect : Connect
ssl_connect = record { port = 8443; protocol = "HTTPS" }

abbrev pub connect_for : Hawtio → ApiServerSpec → Connect
connect_for hawtio api = if is_ssl hawtio api then ssl_connect else plain_connect

-- `*p` where the pointer is set, a default where it is nil
abbrev pub period_or : Option ℤ → ℤ → ℤ
period_or none default = default
period_or (some p) default = p

-- `newHawtioEnvVars`
unfoldable pub new_hawtio_env_vars : Hawtio → ApiServerSpec → String → List EnvVar
unfolding env_vars_for_hawtio env_vars_for_nginx
new_hawtio_env_vars hawtio api console_url =
    env_vars_for_hawtio hawtio api
    ++ when api.is_openshift4 (env_vars_for_hawtio_ocp4 api.version console_url)
    ++ env_vars_for_nginx hawtio.spec.nginx

-- `newGatewayEnvVars`
unfoldable pub new_gateway_env_vars : Hawtio → ApiServerSpec → List EnvVar
unfolding env_vars_for_gateway env_vars_for_rbac
new_gateway_env_vars hawtio api =
    env_vars_for_gateway hawtio api ++ env_vars_for_rbac hawtio.spec.rbac

module _ (getenv : String → String) where
  -- `getImageFor`
  unfoldable pub get_image_for : String → String → String → String → String
  get_image_for tag img_repo env_var default =
      let repository =
        if getenv env_var == ""
        then (if img_repo == "" then default else img_repo)
        else getenv env_var in
      if starts_with tag "sha256:" then repository <> "@" <> tag else repository <> ":" <> tag

  -- `getHawtioImageFor`
  abbrev pub get_hawtio_image_for : String → String → String
  get_hawtio_image_for tag repository =
      get_image_for tag repository "IMAGE_REPOSITORY" "quay.io/hawtio/online"

  -- `getGatewayImageFor`
  abbrev pub get_gateway_image_for : String → String → String
  get_gateway_image_for tag repository =
      get_image_for tag repository "GATEWAY_IMAGE_REPOSITORY" "quay.io/hawtio/online-gateway"

  -- `getImagePullPolicy`
  unfoldable pub get_image_pull_policy : String
  get_image_pull_policy =
      let policy =
        if getenv "IMAGE_PULL_POLICY" == "" then "Always" else getenv "IMAGE_PULL_POLICY" in
      if not (policy == "Always") && not (policy == "Never") && not (policy == "IfNotPresent")
      then "Always"
      else policy

  -- `newHawtioContainer`
  unfoldable pub new_hawtio_container :
      Hawtio → ApiServerSpec → String → String → String → Container
  unfolding new_hawtio_env_vars is_ssl get_image_for get_image_pull_policy
  new_hawtio_container hawtio api console_url image_version image_repository =
      let connect = connect_for hawtio api in
      let http_get : HttpGetAction = record {
        port = container_port_name;
        path = "/online";
        scheme = connect.protocol;
      } in
      record {
        name = hawtio.metadata.name <> "-container";
        image = get_hawtio_image_for image_version image_repository;
        image_pull_policy = get_image_pull_policy;
        env = new_hawtio_env_vars hawtio api console_url;
        readiness_probe = record {
          initial_delay_seconds = pos 5;
          timeout_seconds = pos 1;
          period_seconds = period_or hawtio.spec.health_checks.online_readiness_period (pos 5);
          http_get = http_get;
        };
        liveness_probe = record {
          initial_delay_seconds = pos 0;
          timeout_seconds = pos 1;
          period_seconds = period_or hawtio.spec.health_checks.online_liveness_period (pos 10);
          http_get = http_get;
        };
        ports =
            record { name = container_port_name; container_port = connect.port; protocol = "TCP" }
            ∷ [];
        resources = hawtio.spec.resources;
        volume_mounts = [];
      }

  -- `newGatewayContainer`
  unfoldable pub new_gateway_container : Hawtio → ApiServerSpec → String → String → Container
  unfolding new_gateway_env_vars is_ssl get_image_for get_image_pull_policy
  new_gateway_container hawtio api image_version image_gateway_repository =
      let connect = connect_for hawtio api in
      let http_get : HttpGetAction = record {
        port = container_gateway_port_name;
        path = "/status";
        scheme = connect.protocol;
      } in
      record {
        name = hawtio.metadata.name <> "-gateway-container";
        image = get_gateway_image_for image_version image_gateway_repository;
        image_pull_policy = get_image_pull_policy;
        env = new_gateway_env_vars hawtio api;
        readiness_probe = record {
          initial_delay_seconds = pos 5;
          timeout_seconds = pos 1;
          period_seconds = period_or hawtio.spec.health_checks.gateway_readiness_period (pos 30);
          http_get = http_get;
        };
        liveness_probe = record {
          initial_delay_seconds = pos 0;
          timeout_seconds = pos 1;
          period_seconds = period_or hawtio.spec.health_checks.gateway_liveness_period (pos 120);
          http_get = http_get;
        };
        ports =
            record { name = container_gateway_port_name; container_port = 3000; protocol = "TCP" }
            ∷ [];
        resources = hawtio.spec.resources;
        volume_mounts = [];
      }
