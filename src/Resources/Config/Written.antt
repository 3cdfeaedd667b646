-- ===== src/Resources/Config/Written.antt =====
-- pkg/resources/configmap.go: the shape of the console's configuration file, by the struct tags of
-- pkg/apis/hawtio/v2/hawtio_types.go, and that `configForHawtio` writes a file of it.
use hawtio_operator.Base.{
  String, ◌≡◌, refl, Bool, true, false, some, List, [], ◌∷◌, inl, inr, Bool-cases,
}
use hawtio_operator.Base.{◌==◌}
use hawtio_operator.Base.Errors.{ok}
use hawtio_operator.Api.{Hawtio}
use hawtio_operator.Api.Config.{HawtioConfig, HawtioAbout, HawtioBranding, HawtioProductInfo}
use hawtio_operator.Util.File.{load_config_from_file}
use hawtio_operator.Resources.Config.{Codec, config_for_hawtio}
use hawtio_operator.Resources.Config.Merge.{
  Json, array, Items, no_items, item, Fields, no_fields, merge,
}
use hawtio_operator.Resources.Config.Working.{
  working_config, config_to_json, text_field, flag_field, array_field, texts, product_infos_to_json,
  about_to_json, branding_to_json,
}
use hawtio_operator.Resources.Config.Overlay.{
  AreDistinct, at_path, IsLeaf, IsAbsent, at_path-merged_leaf, at_path-merged_absent,
}
use hawtio_operator.Resources.Config.Shapes.{
  Shape, string, flag, list_of, struct, Tags, no_tags, tag, shape_of, TakesFlag, TakesString, Fits,
  ItemsFit, FieldsFit, merge-Fits,
}

-- The types of the configuration.
abbrev about_tags : Tags
about_tags = tag "title" string (
    tag "productInfo" (list_of (struct (tag "name" string (tag "value" string no_tags)))) (
      tag "additionalInfo" string (
        tag "description" string (
          tag "copyright" string (
            tag "imgSrc" string
              (tag "imgDarkModeSrc" string (tag "backgroundImgSrc" string no_tags)))))))

abbrev branding_tags : Tags
branding_tags = tag "appName" string (
    tag "showAppName" flag (
      tag "appLogoUrl" string
        (tag "appLogoDarkModeUrl" string (tag "css" string (tag "favicon" string no_tags)))))

abbrev online_tags : Tags
online_tags = tag "projectSelector" string (
    tag "consoleLink"
      (struct (tag "text" string (tag "section" string (tag "imageRelativePath" string no_tags))))
      no_tags)

abbrev config_tags : Tags
config_tags = tag "about" (struct about_tags) (
    tag "branding" (struct branding_tags)
      (tag "online" (struct online_tags) (tag "disabledRoutes" (list_of string) no_tags)))

abbrev pub config_shape : Shape
config_shape = struct config_tags

text_field-Fits :
    (k s : String) (fs : Fields) (ts : Tags)
    → TakesString (shape_of k ts)
    → FieldsFit fs ts
    → FieldsFit (text_field k s fs) ts
text_field-Fits k s fs ts a h = elim (Bool-cases (s == "")) [ inl e ↦ rw e h | inr e ↦ rw e (a, h) ]

flag_field-Fits :
    (k : String) (b : Bool) (fs : Fields) (ts : Tags)
    → TakesFlag (shape_of k ts)
    → FieldsFit fs ts
    → FieldsFit (flag_field k b fs) ts
flag_field-Fits k true fs ts a h = (a, h)
flag_field-Fits k false fs ts a h = h

array_field-Fits :
    (k : String) (xs : Items) (fs : Fields) (ts : Tags)
    → Fits (array xs) (shape_of k ts)
    → FieldsFit fs ts
    → FieldsFit (array_field k xs fs) ts
array_field-Fits k no_items fs ts a h = h
array_field-Fits k (item x xs) fs ts a h = (a, h)

texts-Fit : (ss : List String) → ItemsFit (texts ss) string
texts-Fit [] = tt
texts-Fit (s ∷ ss) = (tt, texts-Fit ss)

product_infos-Fit :
    (ps : List HawtioProductInfo)
    → ItemsFit (product_infos_to_json ps) (struct (tag "name" string (tag "value" string no_tags)))
product_infos-Fit [] = tt
product_infos-Fit (p ∷ ps) = ((tt, (tt, tt)), product_infos-Fit ps)

about_to_json-Fits : (about : HawtioAbout) → Fits (about_to_json about) (struct about_tags)
about_to_json-Fits about = text_field-Fits "title" about.title _ about_tags tt (
    array_field-Fits "productInfo" _ _ about_tags (product_infos-Fit about.product_infos) (
      text_field-Fits "additionalInfo" about.additional_info _ about_tags tt (
        text_field-Fits "description" about.description _ about_tags tt (
          text_field-Fits "copyright" about.copyright _ about_tags tt (
            text_field-Fits "imgSrc" about.img_src _ about_tags tt (
              text_field-Fits "imgDarkModeSrc" about.img_dark_mode_src _ about_tags tt (
                text_field-Fits "backgroundImgSrc" about.background_img_src no_fields about_tags tt
                  tt)))))))

branding_to_json-Fits :
    (branding : HawtioBranding) → Fits (branding_to_json branding) (struct branding_tags)
branding_to_json-Fits b = text_field-Fits "appName" b.app_name _ branding_tags tt (
    flag_field-Fits "showAppName" b.show_app_name _ branding_tags tt (
      text_field-Fits "appLogoUrl" b.app_logo_url _ branding_tags tt (
        text_field-Fits "appLogoDarkModeUrl" b.app_logo_dark_mode_url _ branding_tags tt (
          text_field-Fits "css" b.css _ branding_tags tt
            (text_field-Fits "favicon" b.favicon no_fields branding_tags tt tt)))))

config_to_json-Fits : (config : HawtioConfig) → Fits (config_to_json config) config_shape
unfolding config_to_json
config_to_json-Fits config =
    let link = config.online.console_link in
    let link_tags =
      tag "text" string (tag "section" string (tag "imageRelativePath" string no_tags)) in
    let console_link_fits = text_field-Fits "text" link.text _ link_tags tt (
      text_field-Fits "section" link.section _ link_tags tt
        (text_field-Fits "imageRelativePath" link.image_relative_path no_fields link_tags tt tt)) in
    let online_fits =
      text_field-Fits "projectSelector" config.online.project_selector _ online_tags tt
        (console_link_fits, tt) in
    let routes_fit =
      array_field-Fits "disabledRoutes" (texts config.disabled_routes) no_fields config_tags
        (texts-Fit config.disabled_routes) tt in
    (
      about_to_json-Fits config.about,
      (branding_to_json-Fits config.branding, (online_fits, routes_fit)),
    )

-- A path reads the resource's setting where it has one, and the default where it has none.
abbrev pub Overlays : Json → Json → Json → Type 0
Overlays settings default j =
    ((p : List String) (v : Json)
      → at_path p (some settings) ≡ some v
      → IsLeaf v
      → at_path p (some j) ≡ some v)
    × ((p : List String)
        → IsAbsent p (some settings)
        → at_path p (some j) ≡ at_path p (some default))

merge-Overlays : (a d : Json) → AreDistinct d → Overlays a d (merge a d)
merge-Overlays a d u = (
  λ p v e leaf. at_path-merged_leaf p (some a) (some d) v u e leaf,
  λ p h. at_path-merged_absent p (some a) (some d) u h,
)

module _ (codec : Codec) where
  -- The document that `configForHawtio` prints.
  abbrev pub document : Hawtio → Json → Json
  document hawtio default = merge (config_to_json (working_config hawtio.spec.config)) default

  config_for_hawtio-eq :
      (hawtio : Hawtio) (path bytes : String) (default : Json)
      → load_config_from_file codec.files path ≡ ok bytes
      → codec.decode bytes ≡ ok default
      → config_for_hawtio codec hawtio path ≡ codec.marshal (document hawtio default)
  unfolding config_for_hawtio
  config_for_hawtio-eq hawtio path bytes default l e = rw (l, e) refl

  -- Whatever the custom resource sets, and with any defaults that can be read into the type of the
  -- configuration, the document that is printed can be read into that type.
  pub config_for_hawtio-Fits :
      (hawtio : Hawtio) (path bytes : String) (default : Json)
      → load_config_from_file codec.files path ≡ ok bytes
      → codec.decode bytes ≡ ok default
      → Fits default config_shape
      → (j : Json) × (config_for_hawtio codec hawtio path ≡ codec.marshal j) × Fits j config_shape
  config_for_hawtio-Fits hawtio path bytes default l e fits =
      let settings = config_to_json (working_config hawtio.spec.config) in
      (
        document hawtio default,
        config_for_hawtio-eq hawtio path bytes default l e,
        merge-Fits default settings config_shape
            (config_to_json-Fits (working_config hawtio.spec.config)) fits,
      )

  -- The document that is printed has, at each path of keys, the custom resource's setting (with the
  -- deprecated and derived settings put in their places) where it sets a value there, and reads as the
  -- defaults do where its settings lack the path. The defaults' keys are distinct in each object, as in any
  -- decoded text.
  pub config_for_hawtio-Overlays :
      (hawtio : Hawtio) (path bytes : String) (default : Json)
      → load_config_from_file codec.files path ≡ ok bytes
      → codec.decode bytes ≡ ok default
      → AreDistinct default
      → (j : Json) × (config_for_hawtio codec hawtio path ≡ codec.marshal j)
        × Overlays (config_to_json (working_config hawtio.spec.config)) default j
  config_for_hawtio-Overlays hawtio path bytes default l e u = (
    document hawtio default,
    config_for_hawtio-eq hawtio path bytes default l e,
    merge-Overlays (config_to_json (working_config hawtio.spec.config)) default u,
  )
