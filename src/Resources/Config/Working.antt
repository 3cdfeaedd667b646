-- ===== src/Resources/Config/Working.antt =====
-- pkg/resources/configmap.go: the deprecated and derived settings, and how encoding/json writes the
-- configuration (the struct tags of pkg/apis/hawtio/v2/hawtio_types.go).
use hawtio_operator.Base.{String, Bool, true, false, ◌&&◌, not, List, [], ◌∷◌}
use hawtio_operator.Base.{◌==◌, if◌then◌else◌}
use hawtio_operator.Api.Config.{HawtioConfig, HawtioAbout, HawtioBranding, HawtioProductInfo}
use hawtio_operator.Resources.Config.Merge.{
  Json, boolean, text, array, object, Items, no_items, item, Fields, no_fields, field,
}

-- `if a == "" && b != "" { a = b }`
abbrev pub fallback : String → String → String
fallback a b = if a == "" && not (b == "") then b else a

abbrev working_about : HawtioAbout → HawtioAbout
working_about about = record about {
  description = fallback about.description about.additional_info;
  additional_info = "";
  img_dark_mode_src = fallback about.img_dark_mode_src about.img_src;
}

abbrev working_branding : HawtioBranding → HawtioBranding
working_branding branding = record branding {
  app_logo_dark_mode_url = fallback branding.app_logo_dark_mode_url branding.app_logo_url;
}

-- The working copy of `configForHawtio`.
unfoldable pub working_config : HawtioConfig → HawtioConfig
working_config config = record config {
  about = working_about config.about;
  branding = working_branding config.branding;
}

-- A string field with `omitempty`.
abbrev pub text_field : String → String → Fields → Fields
text_field k s fs = if s == "" then fs else field k (text s) fs

abbrev pub flag_field : String → Bool → Fields → Fields
flag_field k true fs = field k (boolean true) fs
flag_field k false fs = fs

-- A list field with `omitempty`.
abbrev pub array_field : String → Items → Fields → Fields
array_field k no_items fs = fs
array_field k (item x xs) fs = field k (array (item x xs)) fs

abbrev pub texts : List String → Items
texts [] = no_items
texts (s ∷ ss) = item (text s) (texts ss)

abbrev pub product_infos_to_json : List HawtioProductInfo → Items
product_infos_to_json [] = no_items
product_infos_to_json (p ∷ ps) =
    item (object (field "name" (text p.name) (field "value" (text p.value) no_fields)))
      (product_infos_to_json ps)

abbrev pub about_to_json : HawtioAbout → Json
about_to_json about = object (
    text_field "title" about.title (
      array_field "productInfo" (product_infos_to_json about.product_infos) (
        text_field "additionalInfo" about.additional_info (
          text_field "description" about.description (
            text_field "copyright" about.copyright (
              text_field "imgSrc" about.img_src (
                text_field "imgDarkModeSrc" about.img_dark_mode_src
                  (text_field "backgroundImgSrc" about.background_img_src no_fields))))))))

abbrev pub branding_to_json : HawtioBranding → Json
branding_to_json branding = object (
    text_field "appName" branding.app_name (
      flag_field "showAppName" branding.show_app_name (
        text_field "appLogoUrl" branding.app_logo_url (
          text_field "appLogoDarkModeUrl" branding.app_logo_dark_mode_url
            (text_field "css" branding.css (text_field "favicon" branding.favicon no_fields))))))

-- `json.Marshal` and `json.Unmarshal` of the configuration: a struct is never omitted.
unfoldable pub config_to_json : HawtioConfig → Json
config_to_json config =
    let link = config.online.console_link in
    let console_link = text_field "text" link.text (
      text_field "section" link.section
        (text_field "imageRelativePath" link.image_relative_path no_fields)) in
    let online =
      text_field "projectSelector" config.online.project_selector
        (field "consoleLink" (object console_link) no_fields) in
    object (
      field "about" (about_to_json config.about) (
        field "branding" (branding_to_json config.branding) (
          field "online" (object online)
            (array_field "disabledRoutes" (texts config.disabled_routes) no_fields))))
