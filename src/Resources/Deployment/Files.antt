-- ===== src/Resources/Deployment/Files.antt =====
-- The files that the containers' environment names are mounted.
use hawtio_operator.Base.{
  String, ◌<>◌, ◌≡◌, refl, Bool, true, false, List, [], ◌∷◌, ◌++◌, inl, inr, All, All-append, Any,
  has, Bool-cases,
}
use hawtio_operator.Base.{◌==◌, if◌then◌else◌}
use hawtio_operator.Kube.Workload.{EnvVar, value, field_ref, VolumeMount, PodTemplateSpec}
use hawtio_operator.Api.{Hawtio, HawtioNginx, HawtioRbac, namespace_type}
use hawtio_operator.Capabilities.{ApiServerSpec}
use hawtio_operator.Util.Text.{path_join, to_lower}
use hawtio_operator.Util.Version.{is_ssl}
use hawtio_operator.Resources.Environment.{
  env_vars_for_hawtio, env_vars_for_nginx, env_vars_for_gateway, env_vars_for_rbac, when, if_set,
  ssl_key_value, ssl_cert_value, ssl_cert_ca_value, is_true, oauth_client_id, text_or,
  env_var_for_auth, env_vars_for_hawtio_ocp4, rbac_config_map_key,
  rbac_config_map_volume_mount_path,
}
use hawtio_operator.Resources.Container.{new_hawtio_env_vars, new_gateway_env_vars}
use hawtio_operator.Resources.Volumes.{serving_volume_name, rbac_volume_name}

-- The variables that name a file of the deployment's own.
abbrev file_variables : List String
file_variables =
    "HAWTIO_ONLINE_SSL_KEY" ∷ "HAWTIO_ONLINE_SSL_CERTIFICATE" ∷ "HAWTIO_ONLINE_GATEWAY_SSL_KEY"
    ∷ "HAWTIO_ONLINE_GATEWAY_SSL_CERTIFICATE" ∷ "HAWTIO_ONLINE_RBAC_ACL" ∷ []

-- The files that a volume holds: those of a secret of type TLS, and the roles.
abbrev files_of : String → List String
files_of name =
    if name == serving_volume_name
    then "tls.key" ∷ "tls.crt" ∷ []
    else (if name == rbac_volume_name then rbac_config_map_key ∷ [] else [])

-- A mount puts a file of its volume at the path.
abbrev pub Provides : String → VolumeMount → Type 0
Provides path m = Any (λ file. path ≡ m.mount_path <> "/" <> file) (files_of m.name)

abbrev pub FileIsMounted : List VolumeMount → EnvVar → Type 0
FileIsMounted mounts (field_ref name version path) = Unit
FileIsMounted mounts (value name path) =
    if has file_variables name then Any (Provides path) mounts else Unit

-- Each file that a container's environment names is one of those mounted in it.
abbrev pub FilesAreMounted : PodTemplateSpec → Type 0
FilesAreMounted pod = All (λ c. All (FileIsMounted c.volume_mounts) c.env) pod.containers

abbrev pub acl_path : String
unfolding path_join
acl_path = path_join (rbac_config_map_volume_mount_path ∷ rbac_config_map_key ∷ [])

abbrev pub ServesFiles : List VolumeMount → Type 0
ServesFiles mounts = Any (Provides ssl_key_value) mounts × Any (Provides ssl_cert_value) mounts

module _ (mounts : List VolumeMount) where
  abbrev pub AllMounted : List EnvVar → Type 0
  AllMounted l = All (FileIsMounted mounts) l

  join : (xs ys : List EnvVar) → AllMounted xs → AllMounted ys → AllMounted (xs ++ ys)
  join xs ys h k = All-append (FileIsMounted mounts) xs ys h k

  when-AllMounted : (c : Bool) (l : List EnvVar) → (c ≡ true → AllMounted l) → AllMounted (when c l)
  when-AllMounted true l h = h refl
  when-AllMounted false l h = tt

  if_set-AllMounted :
      (name s : String) → has file_variables name ≡ false → AllMounted (if_set name s)
  if_set-AllMounted name s h = elim (Bool-cases (s == "")) [
    | inl e ↦ rw e tt
    | inr e ↦ rw e (rw h tt, tt)
  ]

  nginx-AllMounted : (nginx : HawtioNginx) → AllMounted (env_vars_for_nginx nginx)
  unfolding env_vars_for_nginx
  nginx-AllMounted nginx =
      let body = if_set "NGINX_CLIENT_BODY_BUFFER_SIZE" nginx.client_body_buffer_size in
      let proxy = if_set "NGINX_PROXY_BUFFERS" nginx.proxy_buffers in
      let output =
        if_set "NGINX_SUBREQUEST_OUTPUT_BUFFER_SIZE" nginx.subrequest_output_buffer_size in
      let burst = if_set "NGINX_MASTER_BURST" nginx.master_burst_size in
      join (body ++ proxy ++ output) burst
        (join (body ++ proxy) output
          (join body proxy (if_set-AllMounted _ _ refl) (if_set-AllMounted _ _ refl))
          (if_set-AllMounted _ _ refl))
        (if_set-AllMounted _ _ refl)

  pub hawtio-AllMounted :
      (hawtio : Hawtio) (api : ApiServerSpec) (url : String)
      → (is_ssl hawtio api ≡ true → ServesFiles mounts)
      → AllMounted (new_hawtio_env_vars hawtio api url)
  unfolding new_hawtio_env_vars
  hawtio-AllMounted hawtio api url serves =
      let mode = value "HAWTIO_ONLINE_MODE" (to_lower hawtio.spec.kind) ∷ [] in
      let client =
        when api.is_openshift4 (value "HAWTIO_OAUTH_CLIENT_ID" (oauth_client_id hawtio) ∷ []) in
      let ssl = when (is_ssl hawtio api) (
        value "HAWTIO_ONLINE_SSL_KEY" ssl_key_value
        ∷ value "HAWTIO_ONLINE_SSL_CERTIFICATE" ssl_cert_value
        ∷ []) in
      let auth = env_var_for_auth api.is_openshift4 ∷ [] in
      let namespaced =
        when (hawtio.spec.kind == namespace_type)
          (field_ref "HAWTIO_ONLINE_NAMESPACE" "v1" "metadata.namespace" ∷ []) in
      let log =
        value "HAWTIO_ONLINE_LOG_LEVEL" (text_or hawtio.spec.logging.online_log_level "info")
        ∷ [] in
      let ocp4 = when api.is_openshift4 (env_vars_for_hawtio_ocp4 api.version url) in
      let nginx = env_vars_for_nginx hawtio.spec.nginx in
      let own : AllMounted (mode ++ client ++ ssl ++ auth ++ namespaced ++ log) =
        join (mode ++ client ++ ssl ++ auth ++ namespaced) log
          (join (mode ++ client ++ ssl ++ auth) namespaced
            (join (mode ++ client ++ ssl) auth
              (join (mode ++ client) ssl
                (join mode client (tt, tt) (when-AllMounted api.is_openshift4 _ (λ h. (tt, tt))))
                (when-AllMounted (is_ssl hawtio api) _ (λ h. ((serves h).0, ((serves h).1, tt)))))
              (tt, tt))
            (when-AllMounted (hawtio.spec.kind == namespace_type) _ (λ h. (tt, tt))))
          (tt, tt) in
      join (env_vars_for_hawtio hawtio api ++ ocp4) nginx
        (join (env_vars_for_hawtio hawtio api) ocp4 own
          (when-AllMounted api.is_openshift4 _ (λ h. (tt, (tt, tt)))))
        (nginx-AllMounted hawtio.spec.nginx)

  rbac-AllMounted :
      (rbac : HawtioRbac)
      → ((rbac.config_map == "") ≡ false → Any (Provides acl_path) mounts)
      → AllMounted (env_vars_for_rbac rbac)
  unfolding env_vars_for_rbac
  rbac-AllMounted rbac provides =
      let acl =
        if rbac.config_map == "" then [] else value "HAWTIO_ONLINE_RBAC_ACL" acl_path ∷ [] in
      let acl_mounted : AllMounted acl = elim (Bool-cases (rbac.config_map == "")) [
        | inl e ↦ rw e tt
        | inr e ↦ rw e (provides e, tt)
      ] in
      let off = value "HAWTIO_ONLINE_DISABLE_RBAC_REGISTRY" "true" ∷ [] in
      let disabled = is_true rbac.disable_rbac_registry in
      join acl (when disabled off) acl_mounted (when-AllMounted disabled off (λ h. (tt, tt)))

  pub gateway-AllMounted :
      (hawtio : Hawtio) (api : ApiServerSpec)
      → (is_ssl hawtio api ≡ true → ServesFiles mounts)
      → ((hawtio.spec.rbac.config_map == "") ≡ false → Any (Provides acl_path) mounts)
      → AllMounted (new_gateway_env_vars hawtio api)
  unfolding new_gateway_env_vars
  gateway-AllMounted hawtio api serves provides =
      let ssl = when (is_ssl hawtio api) (
        value "HAWTIO_ONLINE_GATEWAY_SSL_KEY" ssl_key_value
        ∷ value "HAWTIO_ONLINE_GATEWAY_SSL_CERTIFICATE" ssl_cert_value
        ∷ value "HAWTIO_ONLINE_GATEWAY_SSL_CERTIFICATE_CA" ssl_cert_ca_value
        ∷ []) in
      join (env_vars_for_gateway hawtio api) (env_vars_for_rbac hawtio.spec.rbac)
        (
          tt,
          join ssl _
              (when-AllMounted (is_ssl hawtio api) _
                (λ h. ((serves h).0, ((serves h).1, (tt, tt)))))
              (tt, (tt, (tt, tt))),
        )
        (rbac-AllMounted hawtio.spec.rbac provides)
