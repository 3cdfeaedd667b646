-- ===== src/Controller/Reconcile/Console.antt =====
-- pkg/controller/hawtio/reconcile_openshift.go
pub mod Laws
use hawtio_operator.Base.{
  String, Bool, true, false, not, ◌&&◌, ◌||◌, Option, none, some, List, [], ◌∷◌,
}
use hawtio_operator.Base.{◌==◌, if◌then◌else◌}
use hawtio_operator.Base.Errors.{Error, message, Result, ok, err, is_not_found}
use hawtio_operator.Base.Act.{Act, pure, raise, lift, catch, ◌>>=◌, ◌>>◌}
use hawtio_operator.Kube.{Key, ObjectMeta, ConfigMap}
use hawtio_operator.Kube.Network.{Route, ConsoleLink}
use hawtio_operator.Api.{Hawtio, cluster_type, namespace_type}
use hawtio_operator.Api.Config.{HawtioConfig}
use hawtio_operator.Util.Metadata.{merge_map}
use hawtio_operator.Capabilities.{ApiServerSpec}
use hawtio_operator.Resources.Config.{get_hawtio_config}
use hawtio_operator.Resources.ConsoleLink.{
  new_default_console_link, new_application_menu_link, new_namespace_dashboard_link,
}
use hawtio_operator.Controller.Cluster.{
  Client, Reconciler, OperationResult, unchanged, updated, cluster_wide_name,
}
use hawtio_operator.Controller.Defaults.{hydrate_defaults}
use hawtio_operator.Controller.Reconcile.Config.{create_or_adopt}

abbrev has_host : Option Route → Bool
has_host none = false
has_host (some route) = not (route.spec.host == "")

-- `shouldExist`
unfoldable pub should_exist : ApiServerSpec → Hawtio → Option Route → Bool
should_exist api hawtio route =
    api.routes
    && has_host route
    && (hawtio.spec.kind == cluster_type
        || hawtio.spec.kind == namespace_type && api.is_openshift43_plus)

-- The link that the callback wants.
unfoldable pub console_link_blueprint :
    ApiServerSpec → Hawtio → Key → Route → HawtioConfig → Result ConsoleLink
unfolding new_application_menu_link new_namespace_dashboard_link
console_link_blueprint api hawtio key route config =
    let name = cluster_wide_name key in
    if hawtio.spec.kind == cluster_type
    then ok (new_application_menu_link name key.namespace route config)
    else (if api.is_openshift43_plus
        then ok (new_namespace_dashboard_link name key.namespace route config)
        else err (
            message
              "Unsupported ConsoleLink configuration - neither Application nor Namespace link"))

unfoldable pub console_link_integrity : ConsoleLink → ConsoleLink → ConsoleLink
console_link_integrity source hydrated =
    if hydrated.spec.href == "" || hydrated.spec.location == ""
    then record hydrated {
      spec = record hydrated.spec { href = source.spec.href; location = source.spec.location };
    }
    else hydrated

module _ {W V : Type 0} (r : Reconciler W V) where
  abbrev remove_found : Result ConsoleLink → Act W OperationResult
  remove_found (err e) = if is_not_found e then pure unchanged else raise e
  remove_found (ok link) = r.console_links.delete link >> pure updated

  -- `removeConsoleLink`
  unfoldable pub remove_console_link : String → Act W OperationResult
  remove_console_link name =
      catch (r.console_links.get (record { namespace = ""; name = name })) remove_found

  unfoldable pub console_link_mutated :
      Hawtio → Key → Route → HawtioConfig → ConsoleLink → Act W ConsoleLink
  unfolding console_link_blueprint hydrate_defaults console_link_integrity
  console_link_mutated hawtio key route config live = do
    blueprint ← lift (console_link_blueprint r.api_spec hawtio key route config)
    hydrated ← hydrate_defaults r.console_links r.temporary_suffix blueprint console_link_integrity
    let m = live.metadata
    pure (record {
      metadata = record m {
        labels = merge_map m.labels blueprint.metadata.labels;
        annotations = merge_map m.annotations blueprint.metadata.annotations;
      };
      spec = hydrated.spec;
    })

  -- The link of a route, which `shouldExist` has found.
  abbrev pub write_link : Hawtio → Key → ConfigMap → Option Route → Act W OperationResult
  write_link hawtio key config_map none = remove_console_link (cluster_wide_name key)
  write_link hawtio key config_map (some route) = do
    config ← lift (get_hawtio_config r.codec config_map)
    (_, done) ←
        create_or_adopt r.console_links (new_default_console_link (cluster_wide_name key))
          (console_link_mutated hawtio key route config)
    pure done

  -- `reconcileConsoleLink`
  unfoldable pub reconcile_console_link :
      Hawtio → Key → ConfigMap → Option Route → Act W OperationResult
  unfolding should_exist remove_console_link console_link_mutated create_or_adopt get_hawtio_config
  reconcile_console_link hawtio key config_map route =
      if not r.api_spec.is_openshift4
      then pure unchanged
      else (if should_exist r.api_spec hawtio route
          then write_link hawtio key config_map route
          else remove_console_link (cluster_wide_name key))
