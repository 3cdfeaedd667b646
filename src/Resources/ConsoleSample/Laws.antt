-- ===== src/Resources/ConsoleSample/Laws.antt =====
-- pkg/openshift/console_yaml_samples.go: which samples the web console gets.
use hawtio_operator.Base.{
  String, ◌<>◌, Bool, true, ◌≡◌, ◌≢◌, inl, inr, refl, sym, ap, ◌∙◌, List, [], ◌∷◌, eq_iff,
}
use hawtio_operator.Base.{◌==◌, Bool-cases}
use hawtio_operator.Base.Dict.{text_at}
use hawtio_operator.Base.Errors.{Result, ok, err, >>=-eq-ok, ok-injective}
use hawtio_operator.Resources.ConsoleSample.{
  ConsoleYamlSample, TypedHawtio, SampleLibrary, get_console_yaml_sample, yaml_sample, sample_of,
  create_from, renamed, load, create_console_yaml_samples, create_listed,
}

-- The name of the sample of a resource that does not name it itself.
abbrev pub default_name : String → String
default_name product_name = product_name <> "-yamlsample"

name-yaml_sample :
    (res : TypedHawtio) (printed : Result String) (s : ConsoleYamlSample)
    → text_at "consoleName" res.hawtio.metadata.annotations ≡ ""
    → yaml_sample res printed ≡ ok s
    → s.name ≡ default_name res.hawtio.metadata.name
unfolding yaml_sample
name-yaml_sample res (err e) s plain h = cc
name-yaml_sample res (ok printed) s plain h =
    sym (ap (λ (x : ConsoleYamlSample). x.name) (ok-injective h)) ∙ rw plain refl

name-renamed :
    (product_name : String) (res : TypedHawtio)
    → product_name ≢ ""
    → (renamed product_name res).hawtio.metadata.name ≡ product_name
name-renamed product_name res h = elim (Bool-cases (product_name == "")) [
  | inl e ↦ absurd (h ((eq_iff product_name "").0 e))
  | inr e ↦ rw e refl
]

annotations-renamed :
    (product_name : String) (res : TypedHawtio)
    → (renamed product_name res).hawtio.metadata.annotations ≡ res.hawtio.metadata.annotations
annotations-renamed product_name res = elim (Bool-cases (product_name == "")) [
  | inl e ↦ rw e refl
  | inr e ↦ rw e refl
]

module _ {W : Type 0} (library : SampleLibrary W) (product_name : String) where
  -- No embedded file names its sample.
  abbrev pub NamesNoSample : Type 0
  NamesNoSample =
      (filename bytes : String) (res : TypedHawtio)
      → library.read_file ("crs/" <> filename) ≡ ok bytes
      → library.unmarshal bytes ≡ ok res
      → text_at "consoleName" res.hawtio.metadata.annotations ≡ ""

  name-sample_of :
      (filename : String) (s : ConsoleYamlSample)
      → product_name ≢ ""
      → NamesNoSample
      → sample_of library product_name filename ≡ ok s
      → s.name ≡ default_name product_name
  unfolding sample_of get_console_yaml_sample
  name-sample_of filename s named plain e =
      let (bytes, e0, e1) = >>=-eq-ok (library.read_file ("crs/" <> filename)) _ e in
      let (res, e2, e3) = >>=-eq-ok (library.unmarshal bytes) _ e1 in
      name-yaml_sample (renamed product_name res) _ s
        (ap (text_at "consoleName") (annotations-renamed product_name res)
          ∙ plain filename bytes res e0 e2)
        e3
      ∙ ap default_name (name-renamed product_name res named)

  -- A server refuses a sample whose name is taken, and stays as it is.
  abbrev pub RefusesTaken : (W → String → Bool) → Type 0
  RefusesTaken holds =
      (s : ConsoleYamlSample) (w : W) → holds w s.name ≡ true → (library.create s w).1 ≡ w

  load-same :
      (holds : W → String → Bool) (w : W) (r : Result ConsoleYamlSample)
      → RefusesTaken holds
      → ((s : ConsoleYamlSample) → r ≡ ok s → holds w s.name ≡ true)
      → (load library product_name r w).1 ≡ w
  load-same holds w (err e) refuses taken = refl
  load-same holds w (ok s) refuses taken = refuses s w (taken s refl)

  create_from-same :
      (holds : W → String → Bool) (w : W) (files : List String)
      → product_name ≢ ""
      → NamesNoSample
      → RefusesTaken holds
      → holds w (default_name product_name) ≡ true
      → create_from library product_name files w ≡ w
  unfolding create_from
  create_from-same holds w [] named plain refuses taken = refl
  create_from-same holds w (filename ∷ files) named plain refuses taken =
      let rest = create_from-same holds w files named plain refuses taken in
      let same =
        load-same holds w (sample_of library product_name filename) refuses
          λ s e. ap (holds w) (name-sample_of filename s named plain e) ∙ taken in
      elim (Bool-cases (filename == "kustomization.yaml")) [
        | inl e ↦ rw e rest
        | inr e ↦ rw (e, same) rest
      ]

  create_listed-same :
      (holds : W → String → Bool) (w : W) (listing : Result (List String))
      → product_name ≢ ""
      → NamesNoSample
      → RefusesTaken holds
      → holds w (default_name product_name) ≡ true
      → create_listed library product_name listing w ≡ w
  create_listed-same holds w (err e) named plain refuses taken = refl
  create_listed-same holds w (ok files) named plain refuses taken =
      create_from-same holds w files named plain refuses taken

  -- With a product name, and embedded files that do not name their samples, all samples have one name: once the web console has
  -- a sample of that name, from an earlier start or from the first file, no file adds another.
  pub create_console_yaml_samples_once :
      (holds : W → String → Bool) (w : W)
      → product_name ≢ ""
      → NamesNoSample
      → RefusesTaken holds
      → holds w (default_name product_name) ≡ true
      → create_console_yaml_samples library product_name w ≡ w
  unfolding create_console_yaml_samples
  create_console_yaml_samples_once holds w = create_listed-same holds w library.read_dir
