-- ===== src/Api/Config.antt =====
-- pkg/apis/hawtio/v2/hawtio_types.go: the part of hawtconfig.json that the custom resource can set.
use hawtio_operator.Base.{String, Bool, false, List, []}

pub record HawtioBranding : Type 0 where
  pub app_name : String
  pub show_app_name : Bool
  pub app_logo_url : String
  pub app_logo_dark_mode_url : String
  pub css : String
  pub favicon : String

pub record HawtioProductInfo : Type 0 where
  pub name : String
  pub value : String

pub record HawtioAbout : Type 0 where
  pub title : String
  pub product_infos : List HawtioProductInfo
  pub additional_info : String
  pub description : String
  pub copyright : String
  pub img_src : String
  pub img_dark_mode_src : String
  pub background_img_src : String

pub record HawtioConsoleLink : Type 0 where
  pub text : String
  pub section : String
  pub image_relative_path : String

pub record HawtioOnline : Type 0 where
  pub project_selector : String
  pub console_link : HawtioConsoleLink

pub record HawtioConfig : Type 0 where
  pub about : HawtioAbout
  pub branding : HawtioBranding
  pub online : HawtioOnline
  pub disabled_routes : List String

abbrev pub empty_config : HawtioConfig
empty_config = record {
  about = record {
    title = "";
    product_infos = [];
    additional_info = "";
    description = "";
    copyright = "";
    img_src = "";
    img_dark_mode_src = "";
    background_img_src = "";
  };
  branding = record {
    app_name = "";
    show_app_name = false;
    app_logo_url = "";
    app_logo_dark_mode_url = "";
    css = "";
    favicon = "";
  };
  online = record {
    project_selector = "";
    console_link = record { text = ""; section = ""; image_relative_path = "" };
  };
  disabled_routes = [];
}
