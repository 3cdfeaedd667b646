-- ===== src/Util/Version.antt =====
-- pkg/util/variables.go and pkg/util/hawtio_support.go: the image versions and the SSL decision.
-- `getenv` is `os.Getenv`: the empty text where the variable is not set.
use hawtio_operator.Base.{String, Bool, true, none, some, ◌≢◌, arith, eq_iff}
use hawtio_operator.Base.{◌==◌, if◌then◌else◌}
use hawtio_operator.Api.{Hawtio}
use hawtio_operator.Capabilities.{ApiServerSpec}

-- `BuildVariables`
pub record BuildVariables : Type 0 where
  pub image_repository : String
  pub gateway_image_repository : String
  pub image_version : String
  pub gateway_image_version : String
  pub operator_version : String
  pub legacy_serving_certificate_mount_version : String
  pub product_name : String
  pub server_root_directory : String
  pub client_cert_common_name : String
  pub additional_labels : String

-- `GetOnlineVersion`
unfoldable pub get_online_version : (String → String) → BuildVariables → String
get_online_version getenv bv =
    if getenv "IMAGE_VERSION" == ""
    then (if bv.image_version == "" then "latest" else bv.image_version)
    else getenv "IMAGE_VERSION"

-- `GetGatewayVersion`
unfoldable pub get_gateway_version : (String → String) → BuildVariables → String
unfolding get_online_version
get_gateway_version getenv bv =
    if getenv "GATEWAY_IMAGE_VERSION" == ""
    then (if bv.gateway_image_version == ""
        then get_online_version getenv bv
        else bv.gateway_image_version)
    else getenv "GATEWAY_IMAGE_VERSION"

-- `IsSSL`
unfoldable pub is_ssl : Hawtio → ApiServerSpec → Bool
is_ssl hawtio api =
    if api.is_openshift4
    then true
    else elim hawtio.spec.auth.internal_ssl [ none ↦ true | some b ↦ b ]

-- Neither version is ever empty, so an image reference always has a tag.
pub get_gateway_version-ne-empty :
    (getenv : String → String) (bv : BuildVariables)
    → (get_online_version getenv bv ≢ "") × (get_gateway_version getenv bv ≢ "")
unfolding get_gateway_version
get_gateway_version-ne-empty getenv bv = ground (
  arith,
  eq_iff (getenv "IMAGE_VERSION") "",
  eq_iff bv.image_version "",
  eq_iff (getenv "GATEWAY_IMAGE_VERSION") "",
  eq_iff bv.gateway_image_version "",
  eq_iff "latest" "",
)
