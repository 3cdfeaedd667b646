-- ===== src/Resources/Environment.antt =====
-- pkg/resources/environment.go: the environment of the two containers.
use hawtio_operator.Base.{String, ◌<>◌, Bool, false, Option, none, some, List, [], ◌∷◌, ◌++◌}
use hawtio_operator.Base.{◌==◌, if◌then◌else◌}
use hawtio_operator.Kube.Workload.{EnvVar, value, field_ref}
use hawtio_operator.Api.{Hawtio, HawtioNginx, HawtioRbac, cluster_type, namespace_type}
use hawtio_operator.Capabilities.{ApiServerSpec}
use hawtio_operator.Util.Text.{to_lower, path_join}
use hawtio_operator.Util.Version.{is_ssl}

abbrev pub ssl_key_value : String
ssl_key_value = "/etc/tls/private/serving/tls.key"

abbrev pub ssl_cert_value : String
ssl_cert_value = "/etc/tls/private/serving/tls.crt"

abbrev pub ssl_cert_ca_value : String
ssl_cert_ca_value = "/var/run/secrets/kubernetes.io/serviceaccount/ca.crt"

abbrev pub rbac_config_map_volume_mount_path : String
rbac_config_map_volume_mount_path = "/etc/hawtio/rbac"

abbrev pub rbac_config_map_key : String
rbac_config_map_key = "ACL.yaml"

-- `if c { l = append(l, ...) }`
abbrev pub when : Bool → List EnvVar → List EnvVar
when c l = if c then l else []

abbrev pub text_or : String → String → String
text_or s default = if s == "" then default else s

-- `envVarForAuth`
abbrev pub env_var_for_auth : Bool → EnvVar
env_var_for_auth is_openshift =
    value "HAWTIO_ONLINE_AUTH" (if is_openshift then "oauth" else "form")

-- The identity that the console gives to the OAuth server.
unfoldable pub oauth_client_id : Hawtio → String
oauth_client_id hawtio =
    if hawtio.spec.kind == cluster_type
    then hawtio.metadata.name <> "-" <> hawtio.metadata.namespace
    else hawtio.metadata.name

-- `envVarsForHawtio`
unfoldable pub env_vars_for_hawtio : Hawtio → ApiServerSpec → List EnvVar
unfolding oauth_client_id is_ssl to_lower
env_vars_for_hawtio hawtio api =
    value "HAWTIO_ONLINE_MODE" (to_lower hawtio.spec.kind) ∷ []
    ++ when api.is_openshift4 (value "HAWTIO_OAUTH_CLIENT_ID" (oauth_client_id hawtio) ∷ [])
    ++ when (is_ssl hawtio api) (
        value "HAWTIO_ONLINE_SSL_KEY" ssl_key_value
        ∷ value "HAWTIO_ONLINE_SSL_CERTIFICATE" ssl_cert_value
        ∷ [])
    ++ (env_var_for_auth api.is_openshift4 ∷ [])
    ++ when (hawtio.spec.kind == namespace_type)
        (field_ref "HAWTIO_ONLINE_NAMESPACE" "v1" "metadata.namespace" ∷ [])
    ++ (value "HAWTIO_ONLINE_LOG_LEVEL" (text_or hawtio.spec.logging.online_log_level "info") ∷ [])

-- `envVarsForHawtioOCP4`
abbrev pub env_vars_for_hawtio_ocp4 : String → String → List EnvVar
env_vars_for_hawtio_ocp4 version console_url =
    value "OPENSHIFT_CLUSTER_VERSION" version ∷ value "OPENSHIFT_WEB_CONSOLE_URL" console_url ∷ []

abbrev pub if_set : String → String → List EnvVar
if_set name s = if s == "" then [] else value name s ∷ []

-- `envVarsForNginx`
unfoldable pub env_vars_for_nginx : HawtioNginx → List EnvVar
env_vars_for_nginx nginx =
    if_set "NGINX_CLIENT_BODY_BUFFER_SIZE" nginx.client_body_buffer_size
    ++ if_set "NGINX_PROXY_BUFFERS" nginx.proxy_buffers
    ++ if_set "NGINX_SUBREQUEST_OUTPUT_BUFFER_SIZE" nginx.subrequest_output_buffer_size
    ++ if_set "NGINX_MASTER_BURST" nginx.master_burst_size

-- `envVarsForGateway`
unfoldable pub env_vars_for_gateway : Hawtio → ApiServerSpec → List EnvVar
unfolding is_ssl
env_vars_for_gateway hawtio api =
    let ssl = is_ssl hawtio api in
    value "HAWTIO_ONLINE_GATEWAY_WEB_SERVER"
        ((if ssl then "https" else "http") <> "://localhost:" <> (if ssl then "8443" else "8080"))
      ∷ when ssl (
          value "HAWTIO_ONLINE_GATEWAY_SSL_KEY" ssl_key_value
          ∷ value "HAWTIO_ONLINE_GATEWAY_SSL_CERTIFICATE" ssl_cert_value
          ∷ value "HAWTIO_ONLINE_GATEWAY_SSL_CERTIFICATE_CA" ssl_cert_ca_value
          ∷ [])
    ++ (value "HAWTIO_ONLINE_GATEWAY_LOG_LEVEL"
          (text_or hawtio.spec.logging.gateway_log_level "info")
        ∷ value "HAWTIO_ONLINE_MASK_IP_ADDRESSES"
            (text_or hawtio.spec.logging.mask_ip_addresses "false")
        ∷ env_var_for_auth api.is_openshift4
        ∷ [])

abbrev pub is_true : Option Bool → Bool
is_true none = false
is_true (some b) = b

-- `envVarsForRBAC`
unfoldable pub env_vars_for_rbac : HawtioRbac → List EnvVar
unfolding path_join
env_vars_for_rbac rbac =
    (if rbac.config_map == ""
      then []
      else value "HAWTIO_ONLINE_RBAC_ACL"
          (path_join (rbac_config_map_volume_mount_path ∷ rbac_config_map_key ∷ []))
        ∷ [])
    ++ when (is_true rbac.disable_rbac_registry)
        (value "HAWTIO_ONLINE_DISABLE_RBAC_REGISTRY" "true" ∷ [])
