-- ===== src/Resources/ConsoleSample.antt =====
-- pkg/openshift/console_yaml_samples.go, pkg/util/openshift and pkg/util/kubernetes: the samples of custom resources
-- that the operator gives to the web console at its start. The embedded files, sigs.k8s.io/yaml and the
-- clients are parameters.
pub mod Laws
use hawtio_operator.Base.{String, ◌<>◌, Bool, true, false, Option, none, some, List, [], ◌∷◌}
use hawtio_operator.Base.{◌==◌, has, if◌then◌else◌}
use hawtio_operator.Base.Dict.{Dict, erase, text_at}
use hawtio_operator.Base.Errors.{Error, Result, ok, err, message, ◌>>=◌}
use hawtio_operator.Base.Act.{Act, pure, catch}
use hawtio_operator.Api.{Hawtio}

-- `ConsoleYAMLSample`, whose namespace is always `openshift-console`.
pub record ConsoleYamlSample : Type 0 where
  pub name : String
  pub target_api_version : String
  pub target_kind : String
  pub title : String
  pub description : String
  pub yaml : String
  pub snippet : Bool

-- A custom resource as a file holds it: with its type.
pub record TypedHawtio : Type 0 where
  pub api_version : String
  pub kind : String
  pub hawtio : Hawtio

-- `strconv.ParseBool`
unfoldable pub parse_bool : String → Option Bool
parse_bool s =
    if has ("1" ∷ "t" ∷ "T" ∷ "true" ∷ "TRUE" ∷ "True" ∷ []) s
    then some true
    else if has ("0" ∷ "f" ∷ "F" ∷ "false" ∷ "FALSE" ∷ "False" ∷ []) s
    then some false
    else none

abbrev or_text : String → String → String
or_text s default = if s == "" then default else s

abbrev console_annotations : List String
console_annotations =
    "consoleSnippet" ∷ "consoleTitle" ∷ "consoleDesc" ∷ "consoleName" ∷ "consoleTargetAPIVersion"
    ∷ "consoleTargetKind" ∷ []

erase_all : List String → Dict String → Dict String
erase_all [] m = m
erase_all (k ∷ ks) m = erase_all ks (erase k m)

-- The object that is printed has lost the annotations that are meant for the console.
abbrev without_annotations : TypedHawtio → TypedHawtio
without_annotations res =
    let meta = res.hawtio.metadata in
    record res {
      hawtio = record res.hawtio {
        metadata = record meta { annotations = erase_all console_annotations meta.annotations };
      };
    }

abbrev pub snippet_of : Option Bool → Bool
snippet_of none = false
snippet_of (some b) = b

-- The sample, from the printed object.
unfoldable pub yaml_sample : TypedHawtio → Result String → Result ConsoleYamlSample
unfolding parse_bool
yaml_sample res (err e) = err (message "failed to convert to yamlstr from KubernetesResource")
yaml_sample res (ok printed) =
    let annotations = res.hawtio.metadata.annotations in
    let default_text = res.hawtio.metadata.name <> "-yamlsample" in
    ok (record {
      name = or_text (text_at "consoleName" annotations) default_text;
      target_api_version = or_text (text_at "consoleTargetAPIVersion" annotations) res.api_version;
      target_kind = or_text (text_at "consoleTargetKind" annotations) res.kind;
      title = or_text (text_at "consoleTitle" annotations) default_text;
      description = or_text (text_at "consoleDesc" annotations) default_text;
      yaml = printed;
      snippet = snippet_of (parse_bool (text_at "consoleSnippet" annotations));
    })

-- `GetConsoleYAMLSample`
unfoldable pub get_console_yaml_sample :
    (TypedHawtio → Result String) → TypedHawtio → Result ConsoleYamlSample
unfolding erase_all yaml_sample
get_console_yaml_sample marshal res = yaml_sample res (marshal (without_annotations res))

-- `customResourceDefinitionExists`, from the kinds of the resources of the group and version.
has_kind : String → List String → Bool
has_kind kind [] = false
has_kind kind (k ∷ kinds) = if k == kind then true else has_kind kind kinds

unfoldable pub custom_resource_definition_exists :
    String → String → Result (List String) → Result (Unit {0})
unfolding has_kind
custom_resource_definition_exists printed kind (err e) = err e
custom_resource_definition_exists printed kind (ok kinds) =
    if has_kind kind kinds then ok tt else err (message (printed <> " Kind not found "))

-- The embedded files, the YAML library and the client that creates samples.
pub record SampleLibrary (W : Type 0) : Type 0 where
  pub read_dir : Result (List String)
  pub read_file : String → Result String
  pub unmarshal : String → Result TypedHawtio
  pub marshal : TypedHawtio → Result String
  pub create : ConsoleYamlSample → Act W (Unit {0})

abbrev renamed : String → TypedHawtio → TypedHawtio
renamed product_name res = if product_name == "" then res else record res {
  hawtio = record res.hawtio { metadata = record res.hawtio.metadata { name = product_name } };
}

module _ {W : Type 0} (library : SampleLibrary W) (product_name : String) where
  -- The sample of a file.
  unfoldable pub sample_of : String → Result ConsoleYamlSample
  unfolding get_console_yaml_sample
  sample_of filename = do
    bytes ← library.read_file ("crs/" <> filename)
    res ← library.unmarshal bytes
    get_console_yaml_sample library.marshal (renamed product_name res)

  -- An error of a file is only logged.
  abbrev load : Result ConsoleYamlSample → Act W (Unit {0})
  load (err e) = pure tt
  load (ok sample) = catch (library.create sample) λ answer. pure tt

  -- The loop over the files: the world that it leaves.
  unfoldable pub create_from : List String → W → W
  unfolding sample_of
  create_from [] w = w
  create_from (filename ∷ files) w =
      let skipped = create_from files w in
      let loaded = create_from files (load (sample_of filename) w).1 in
      if filename == "kustomization.yaml" then skipped else loaded

  abbrev pub create_listed : Result (List String) → W → W
  create_listed (err e) w = w
  create_listed (ok files) w = create_from files w

  -- `CreateConsoleYAMLSamples`
  unfoldable pub create_console_yaml_samples : W → W
  unfolding create_from
  create_console_yaml_samples w = create_listed library.read_dir w
