-- ===== src/Resources/Config.antt =====
-- pkg/resources/configmap.go: the console's configuration, merged from the custom resource and the
-- defaults of the image.
pub mod Merge
pub mod Working
pub mod Laws
pub mod Shapes
pub mod Overlay
pub mod Written
use hawtio_operator.Base.{
  ℕ, zero, suc, String, ◌<>◌, Bool, true, false, not, ◌&&◌, Option, none, some, List, [], ◌∷◌, ◌++◌,
}
use hawtio_operator.Base.{◌==◌, starts_with, if◌then◌else◌}
use hawtio_operator.Base.Dict.{Dict, lookup}
use hawtio_operator.Base.Errors.{Error, Result, ok, err, message, ◌>>=◌}
use hawtio_operator.Kube.{ConfigMap, named}
use hawtio_operator.Api.{Hawtio}
use hawtio_operator.Api.Config.{HawtioConfig}
use hawtio_operator.Capabilities.{ApiServerSpec}
use hawtio_operator.Util.File.{Files, load_config_from_file}
use hawtio_operator.Resources.Labels.{resource_labels, propagate}
use hawtio_operator.Resources.Volumes.{hawtio_config_key}
use hawtio_operator.Resources.Service.{default_meta}
use Merge.{Json, merge}
use Working.{working_config, config_to_json}

abbrev pub hawtio_default_config_path : String
hawtio_default_config_path = "config/config.yaml"

-- encoding/json, and the files of the image; `decode` reads a text into an `interface{}`.
pub record Codec : Type 0 where
  pub files : Files
  pub decode : String → Result Json
  pub marshal : Json → Result String
  pub unmarshal : String → Result HawtioConfig

-- `strings.Replace(s, "OpenShift", "Kubernetes", -1)`; the number counts characters to pass over.
replace_from : ℕ → String → String
replace_from skip String.[] = ""
replace_from (suc k) (String.◌∷◌ c s) = replace_from k s
replace_from zero (String.◌∷◌ c s) =
    let found = "Kubernetes" <> replace_from 8 s in
    let other = String.◌∷◌ c String.[] <> replace_from zero s in
    if starts_with (String.◌∷◌ c s) "OpenShift" then found else other

unfoldable pub on_kubernetes : String → String
unfolding replace_from
on_kubernetes s = replace_from 0 s

-- `NewDefaultConfigMap`
abbrev pub new_default_config_map : Hawtio → ConfigMap
new_default_config_map hawtio = record {
  metadata = default_meta hawtio;
  contents = [];
  binary_data = [];
}

module _ (codec : Codec) where
  -- `configForHawtio`
  unfoldable pub config_for_hawtio : Hawtio → String → Result String
  unfolding merge working_config config_to_json load_config_from_file
  config_for_hawtio hawtio path = do
    bytes ← load_config_from_file codec.files path
    default ← codec.decode bytes
    codec.marshal (merge (config_to_json (working_config hawtio.spec.config)) default)

  -- `NewConfigMap`
  unfoldable pub new_config_map : Hawtio → ApiServerSpec → Result ConfigMap
  unfolding config_for_hawtio on_kubernetes
  new_config_map hawtio api = do
    config ← config_for_hawtio hawtio hawtio_default_config_path
    let text = if api.is_openshift4 then config else on_kubernetes config
    ok (record {
      metadata = record (default_meta hawtio) { labels = resource_labels hawtio };
      contents = (hawtio_config_key, text) ∷ [];
      binary_data = [];
    })

  -- `GetHawtioConfig`
  unfoldable pub get_hawtio_config : ConfigMap → Result HawtioConfig
  get_hawtio_config cm = elim (lookup hawtio_config_key cm.contents) [
    | none ↦ err (message "did not find hawtconfig.json in ConfigMap")
    | some text ↦ codec.unmarshal text
  ]
