-- ===== src/Util/File.antt =====
-- pkg/util/util.go: a configuration file.
use hawtio_operator.Base.{String, Bool, ◌||◌}
use hawtio_operator.Base.{◌==◌, if◌then◌else◌}
use hawtio_operator.Base.Errors.{Result, ok, ◌>>=◌}

-- The files of the image, and k8s.io/apimachinery's reader of YAML.
pub record Files : Type 0 where
  pub read_file : String → Result String
  pub yaml_to_json : String → Result String

-- `strings.HasSuffix`
unfoldable pub has_suffix : String → String → Bool
has_suffix String.[] suffix = "" == suffix
has_suffix (String.◌∷◌ c s) suffix = String.◌∷◌ c s == suffix || has_suffix s suffix

module _ (files : Files) where
  -- `jsonIfYaml`
  unfoldable pub json_if_yaml : String → String → Result String
  unfolding has_suffix
  json_if_yaml source filename =
      if has_suffix filename ".yaml" || has_suffix filename ".yml"
      then files.yaml_to_json source
      else ok source

  -- `LoadConfigFromFile`
  unfoldable pub load_config_from_file : String → Result String
  unfolding json_if_yaml
  load_config_from_file path = do bytes ← files.read_file path; json_if_yaml bytes path
