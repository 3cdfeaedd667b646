-- ===== src/Capabilities.antt =====
-- pkg/capabilities/capabilities.go: what the cluster's API offers, found out once at the start.
-- `Discovery` stands for the answers of the API server and of the OpenShift configuration API, and
-- `Semver` for the Masterminds/semver library.
pub mod Laws
use hawtio_operator.Base.{
  String, ◌<>◌, Bool, true, false, Option, none, some, List, [], ◌∷◌, ◌++◌, map,
}
use hawtio_operator.Base.{◌==◌, has, if◌then◌else◌}
use hawtio_operator.Base.Errors.{
  Error, Result, ok, err, message, wrapped, is_not_found, wrap, guard, ◌>>=◌, ◌>>◌,
}

-- `ApiServerSpec`
pub record ApiServerSpec : Type 0 where
  pub version : String
  pub kube_version : String
  pub is_openshift4 : Bool
  pub is_openshift43_plus : Bool
  pub image_streams : Bool
  pub routes : Bool
  pub console_link : Bool

abbrev pub required_routes : String
required_routes = "routes.route.openshift.io/v1"

abbrev pub required_imagestreams : String
required_imagestreams = "imagestreams.image.openshift.io/v1"

abbrev pub required_consolelinks : String
required_consolelinks = "consolelinks.console.openshift.io/v1"

-- A list of resources of one group and version.
pub record ResourceList : Type 0 where
  pub group_version : String
  pub resource_names : List String

-- An entry of the cluster version's history.
pub record UpdateHistory : Type 0 where
  pub state : String
  pub version : String

pub record Semver (V : Type 0) : Type 0 where
  pub parse : String → Result V
  pub print : V → String
  -- A constraint is parsed, and then checked against a version.
  pub constraint : String → Result (V → Bool)

-- The answers; a client is nil where `present` is false.
pub record Discovery : Type 0 where
  pub api_present : Bool
  pub config_present : Bool
  pub server_version : Result (String × String)
  pub server_resources : Result (List ResourceList)
  pub cluster_version : Result (List UpdateHistory)

-- `contains`
contains : List String → String → Bool
contains [] x = false
contains (n ∷ a) x = if x == n then true else contains a x

-- `createResourceIndex`
resource_index : List ResourceList → List String
resource_index [] = []
resource_index (l ∷ lists) =
    map (λ name. name <> "." <> l.group_version) l.resource_names ++ resource_index lists

module _ {V : Type 0} (sv : Semver V) where
  -- The loop over the history: the last completed update is the first in the list.
  pub from_history : List UpdateHistory → ApiServerSpec → Result ApiServerSpec
  from_history [] spec = ok spec
  from_history (update ∷ history) spec =
      if update.state == "Completed"
      then elim (sv.parse update.version) [
        | err e ↦ err (wrapped "Error parsing OpenShift cluster semantic version" e)
        | ok v ↦ elim (sv.constraint ">= 4.3.0-0") [
          | err e ↦ err (wrapped "Error parsing OpenShift cluster semantic version" e)
          | ok check ↦ ok (record spec { version = sv.print v; is_openshift43_plus = check v })
        ]
      ]
      else from_history history spec

  abbrev on_kubernetes : ApiServerSpec → ApiServerSpec
  on_kubernetes spec = record spec {
    is_openshift4 = false;
    version = spec.kube_version;
    is_openshift43_plus = false;
  }

  -- What `APICapabilities` makes of the answer to its question for the cluster version.
  pub with_cluster_version : ApiServerSpec → Result (List UpdateHistory) → Result ApiServerSpec
  unfolding from_history
  with_cluster_version spec (ok history) =
      from_history history (record spec { is_openshift4 = true })
  with_cluster_version spec (err e) =
      if is_not_found e
      then ok (on_kubernetes spec)
      else err (wrapped "Error reading cluster version" e)

  abbrev initial_spec : String × String → List ResourceList → ApiServerSpec
  initial_spec (major, minor) lists =
      let index = resource_index lists in
      record {
        version = "";
        kube_version = major <> "." <> minor;
        is_openshift4 = false;
        is_openshift43_plus = false;
        image_streams = contains index required_imagestreams;
        routes = contains index required_routes;
        console_link = contains index required_consolelinks;
      }

  abbrev finish : Discovery → ApiServerSpec → Result ApiServerSpec
  finish d spec =
      if spec.console_link
      then with_cluster_version spec d.cluster_version
      else ok (on_kubernetes spec)

  -- `APICapabilities`
  unfoldable pub api_capabilities : Discovery → Result ApiServerSpec
  unfolding with_cluster_version resource_index contains
  api_capabilities d = do
    guard d.api_present "No api client. Cannot determine api capabilities"
    guard d.config_present "No config client. Cannot determine api capabilities"
    info ← wrap "Failed to discover server version" d.server_version
    lists ← wrap "Failed to create API Resource index" d.server_resources
    finish d (initial_spec info lists)
