-- ===== src/Api/Memory/Parts.antt =====
-- pkg/apis/hawtio/v2/zz_generated.deepcopy.go: the parts of the custom resource that hold no type of
-- another package, what they stand for in memory, and that their copies are deep.
use hawtio_operator.Base.{refl, none, some, []}
use hawtio_operator.Api.{HawtioRbac, HawtioMetadataPropagation, HawtioHealthCheckPeriods}
use hawtio_operator.Api.Config.{HawtioConfig, HawtioAbout}
use hawtio_operator.Api.Memory.{option_map, Copier, pointer, slice, both, of_fields, IsDeep}
use hawtio_operator.Api.Memory.Separate.{referring-IsDeep, both-IsDeep}
use hawtio_operator.Api.Memory.Structs.{of_fields-IsDeep}
use hawtio_operator.Api.Memory.Stored.{
  flag_of, int_of, strings_of, infos_of, StoredAbout, StoredConfig, StoredHealthCheckPeriods,
  StoredMetadataPropagation, StoredRbac,
}

module _ {X : Type 0} where
  abbrev pub abouts : Copier X StoredAbout HawtioAbout
  abouts =
      of_fields ((slice infos_of)) (λ r. r.product_infos) (λ r x. record r { product_infos = x })
        (λ r a. record {
          title = r.title;
          product_infos = a;
          additional_info = r.additional_info;
          description = r.description;
          copyright = r.copyright;
          img_src = r.img_src;
          img_dark_mode_src = r.img_dark_mode_src;
          background_img_src = r.background_img_src;
        })

  pub abouts-IsDeep : IsDeep abouts
  abouts-IsDeep =
      of_fields-IsDeep ((referring-IsDeep infos_of [])) (λ (r : StoredAbout). r.product_infos)
        (λ r x. record r { product_infos = x }) _ (λ r x. refl) (λ r x a. refl)

  abbrev pub configs : Copier X StoredConfig HawtioConfig
  configs =
      of_fields (both abouts (slice strings_of)) (λ r. (r.about, r.disabled_routes))
        (λ r x. record r { about = x.0; disabled_routes = x.1 })
        (λ r a. record {
          about = a.0;
          branding = r.branding;
          online = r.online;
          disabled_routes = a.1;
        })

  pub configs-IsDeep : IsDeep configs
  configs-IsDeep =
      of_fields-IsDeep (both-IsDeep abouts-IsDeep (referring-IsDeep strings_of []))
        (λ (r : StoredConfig). (r.about, r.disabled_routes))
        (λ r x. record r { about = x.0; disabled_routes = x.1 }) _ (λ r x. refl) (λ r x a. refl)

  abbrev pub health_check_periods : Copier X StoredHealthCheckPeriods HawtioHealthCheckPeriods
  health_check_periods =
      of_fields
        (both (pointer int_of) (both (pointer int_of) (both (pointer int_of) (pointer int_of))))
        (λ r. (
          r.online_readiness_period,
          (r.online_liveness_period, (r.gateway_readiness_period, r.gateway_liveness_period)),
        ))
        (λ r x. record r {
          online_readiness_period = x.0;
          online_liveness_period = x.1.0;
          gateway_readiness_period = x.1.1.0;
          gateway_liveness_period = x.1.1.1;
        })
        (λ r a. record {
          online_readiness_period = a.0;
          online_liveness_period = a.1.0;
          gateway_readiness_period = a.1.1.0;
          gateway_liveness_period = a.1.1.1;
        })

  pub health_check_periods-IsDeep : IsDeep health_check_periods
  health_check_periods-IsDeep =
      of_fields-IsDeep
        (both-IsDeep (referring-IsDeep (λ c. option_map some (int_of c)) none) (
          both-IsDeep (referring-IsDeep (λ c. option_map some (int_of c)) none) (
            both-IsDeep (referring-IsDeep (λ c. option_map some (int_of c)) none)
              (referring-IsDeep (λ c. option_map some (int_of c)) none))))
        (λ (r : StoredHealthCheckPeriods). (
          r.online_readiness_period,
          (r.online_liveness_period, (r.gateway_readiness_period, r.gateway_liveness_period)),
        ))
        (λ r x. record r {
          online_readiness_period = x.0;
          online_liveness_period = x.1.0;
          gateway_readiness_period = x.1.1.0;
          gateway_liveness_period = x.1.1.1;
        })
        _ (λ r x. refl) (λ r x a. refl)

  abbrev pub propagations : Copier X StoredMetadataPropagation HawtioMetadataPropagation
  propagations =
      of_fields (both (slice strings_of) (slice strings_of)) (λ r. (r.annotations, r.labels))
        (λ r x. record r { annotations = x.0; labels = x.1 })
        (λ r a. record { annotations = a.0; labels = a.1 })

  pub propagations-IsDeep : IsDeep propagations
  propagations-IsDeep =
      of_fields-IsDeep
        (both-IsDeep (referring-IsDeep strings_of []) (referring-IsDeep strings_of []))
        (λ (r : StoredMetadataPropagation). (r.annotations, r.labels))
        (λ r x. record r { annotations = x.0; labels = x.1 }) _ (λ r x. refl) (λ r x a. refl)

  abbrev pub rbacs : Copier X StoredRbac HawtioRbac
  rbacs =
      of_fields ((pointer flag_of)) (λ r. r.disable_rbac_registry)
        (λ r x. record r { disable_rbac_registry = x })
        (λ r a. record { config_map = r.config_map; disable_rbac_registry = a })

  pub rbacs-IsDeep : IsDeep rbacs
  rbacs-IsDeep =
      of_fields-IsDeep ((referring-IsDeep (λ c. option_map some (flag_of c)) none))
        (λ (r : StoredRbac). r.disable_rbac_registry)
        (λ r x. record r { disable_rbac_registry = x }) _ (λ r x. refl) (λ r x a. refl)
