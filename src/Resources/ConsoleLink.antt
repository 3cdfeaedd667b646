-- ===== src/Resources/ConsoleLink.antt =====
-- pkg/openshift/console_links.go
use hawtio_operator.Base.{String, ◌<>◌, none, some, [], ◌∷◌}
use hawtio_operator.Base.{◌==◌, if◌then◌else◌}
use hawtio_operator.Kube.{named}
use hawtio_operator.Kube.Network.{ConsoleLink, ConsoleLinkSpec, Route}
use hawtio_operator.Api.Config.{HawtioConfig}
use hawtio_operator.Resources.Labels.{labels_for_hawtio}

abbrev pub application_menu_location : String
application_menu_location = "ApplicationMenu"

abbrev pub namespace_dashboard_location : String
namespace_dashboard_location = "NamespaceDashboard"

abbrev pub default_console_link_text : String
default_console_link_text = "HawtIO Console"

abbrev link_text : HawtioConfig → String
link_text config =
    let text = config.online.console_link.text in
    if text == "" then default_console_link_text else text

-- `NewDefaultConsoleLink`
abbrev pub new_default_console_link : String → ConsoleLink
new_default_console_link name = record {
  metadata = named name "";
  spec = record {
    text = "";
    href = "";
    location = "";
    application_menu = none;
    dashboard_namespaces = none;
  };
}

abbrev labelled : String → ConsoleLinkSpec → ConsoleLink
labelled name spec = record {
  metadata = record (new_default_console_link name).metadata { labels = labels_for_hawtio name };
  spec = spec;
}

-- `UpdateApplicationMenuLink`
unfoldable pub update_application_menu_link : ConsoleLink → Route → HawtioConfig → ConsoleLink
update_application_menu_link link route config =
    let url = "https://" <> route.spec.host in
    record link {
      spec = record link.spec {
        location = application_menu_location;
        text = link_text config;
        href = url;
        application_menu = some (record {
          section = config.online.console_link.section;
          image_url = url <> config.online.console_link.image_relative_path;
        });
      };
    }

-- `NewApplicationMenuLink`
unfoldable pub new_application_menu_link : String → String → Route → HawtioConfig → ConsoleLink
unfolding update_application_menu_link
new_application_menu_link name namespace route config =
    update_application_menu_link
      (labelled name (record (new_default_console_link name).spec {
        location = application_menu_location;
        application_menu = some (record { section = ""; image_url = "" });
      }))
      route config

-- `UpdateNamespaceDashboardLink`
unfoldable pub update_namespace_dashboard_link : ConsoleLink → Route → HawtioConfig → ConsoleLink
update_namespace_dashboard_link link route config = record link {
  spec = record link.spec {
    location = namespace_dashboard_location;
    text = link_text config;
    href = "https://" <> route.spec.host;
    application_menu = none;
  };
}

-- `NewNamespaceDashboardLink`
unfoldable pub new_namespace_dashboard_link : String → String → Route → HawtioConfig → ConsoleLink
unfolding update_namespace_dashboard_link
new_namespace_dashboard_link name namespace route config =
    update_namespace_dashboard_link
      (labelled name (record (new_default_console_link name).spec {
        location = namespace_dashboard_location;
        dashboard_namespaces = some (namespace ∷ []);
      }))
      route config
