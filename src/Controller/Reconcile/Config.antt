-- ===== src/Controller/Reconcile/Config.antt =====
-- pkg/controller/hawtio/reconcile_configmap.go, the service account of reconcile_security.go, and the end
-- that all the reconciliations share.
use hawtio_operator.Base.{if◌then◌else◌}
use hawtio_operator.Base.Errors.{Result, ok, err, is_already_exists}
use hawtio_operator.Base.Act.{Act, pure, raise, lift, catch, ◌>>=◌, ◌>>◌}
use hawtio_operator.Kube.{ConfigMap, ServiceAccount}
use hawtio_operator.Api.{Hawtio}
use hawtio_operator.Util.Metadata.{merge_map}
use hawtio_operator.Resources.Service.{new_default_service_account, new_service_account}
use hawtio_operator.Resources.Config.{new_default_config_map, new_config_map}
use hawtio_operator.Controller.Cluster.{Client, Reconciler, OperationResult}
use hawtio_operator.Controller.Lifecycle.{adopt_legacy_resource}

module _ {W A : Type 0} (client : Client W A) where
  -- An error that the object exists already is followed by its adoption; the error remains.
  abbrev pub adopted : A → Result (A × OperationResult) → Act W (A × OperationResult)
  adopted default (ok done) = pure done
  adopted default (err e) =
      if is_already_exists e then adopt_legacy_resource client default >> raise e else raise e

  unfoldable pub create_or_adopt : A → (A → Act W A) → Act W (A × OperationResult)
  unfolding adopt_legacy_resource
  create_or_adopt default mutated =
      catch (client.create_or_update default mutated) (adopted default)

module _ {W V : Type 0} (r : Reconciler W V) where
  unfoldable pub config_map_mutated : Hawtio → ConfigMap → Act W ConfigMap
  unfolding new_config_map
  config_map_mutated hawtio live = do
    config_map ← lift (r.config_maps.set_controller_reference hawtio live)
    wanted ← lift (new_config_map r.codec hawtio r.api_spec)
    let m = config_map.metadata
    pure (record {
      metadata = record m {
        labels = merge_map m.labels wanted.metadata.labels;
        annotations = merge_map m.annotations wanted.metadata.annotations;
      };
      contents = wanted.contents;
      binary_data = wanted.binary_data;
    })

  -- `reconcileConfigMap`
  unfoldable pub reconcile_config_map : Hawtio → Act W (ConfigMap × OperationResult)
  unfolding config_map_mutated create_or_adopt
  reconcile_config_map hawtio =
      create_or_adopt r.config_maps (new_default_config_map hawtio) (config_map_mutated hawtio)

  unfoldable pub service_account_mutated : Hawtio → ServiceAccount → Act W ServiceAccount
  unfolding new_service_account
  service_account_mutated hawtio live = do
    account ← lift (r.service_accounts.set_controller_reference hawtio live)
    wanted ← lift (new_service_account r.redirect_reference hawtio)
    let m = account.metadata
    pure (record {
      metadata = record m {
        labels = merge_map m.labels wanted.metadata.labels;
        annotations = merge_map m.annotations wanted.metadata.annotations;
      };
    })

  -- `reconcileServiceAccount`
  unfoldable pub reconcile_service_account : Hawtio → Act W (ServiceAccount × OperationResult)
  unfolding service_account_mutated create_or_adopt
  reconcile_service_account hawtio =
      create_or_adopt r.service_accounts (new_default_service_account hawtio)
        (service_account_mutated hawtio)
