-- ===== src/Api/Memory/Values.antt =====
-- pkg/apis/hawtio/v2/zz_generated.deepcopy.go: what the custom resource in memory stands for, and that
-- its deep copy shares nothing with it.
use hawtio_operator.Base.{◌≡◌, refl, Option, none, some, []}
use hawtio_operator.Api.{Hawtio, HawtioSpec, HawtioAuth, HawtioRoute}
use hawtio_operator.Api.Memory.{
  Store, option_map, Copier, pointer, slice, both, of_fields, Kept, IsDeep,
}
use hawtio_operator.Api.Memory.Separate.{referring-IsDeep, both-IsDeep}
use hawtio_operator.Api.Memory.Structs.{pointed, deep_copy-pointed, of_fields-IsDeep}
use hawtio_operator.Api.Memory.Parts.{
  configs, health_check_periods, propagations, rbacs, configs-IsDeep, health_check_periods-IsDeep,
  propagations-IsDeep, rbacs-IsDeep,
}
use hawtio_operator.Api.Memory.Copies.{deep_copy, copy_hawtio}
use hawtio_operator.Api.Memory.Stored.{
  flag_of, int_of, strings_of, Libraries, StoredAuth, StoredRoute, StoredSpec, StoredHawtio,
}

-- The copies of other packages are deep.
pub record AreDeep {X M K T Q : Type 0} (libraries : Libraries X M K T Q) : Type 0 where
  pub metas : IsDeep libraries.metas
  pub keys : IsDeep libraries.keys
  pub times : IsDeep libraries.times
  pub quantities : IsDeep libraries.quantities

module _ {X M K T Q : Type 0} (libraries : Libraries X M K T Q) where
  abbrev pub auths : Copier X (StoredAuth T) HawtioAuth
  auths =
      of_fields (both (pointer flag_of) libraries.times)
        (λ r. (r.internal_ssl, r.client_cert_expiration_date))
        (λ r x. record r { internal_ssl = x.0; client_cert_expiration_date = x.1 })
        (λ r a. record {
          internal_ssl = a.0;
          client_cert_common_name = r.client_cert_common_name;
          client_cert_expiration_date = a.1;
          client_cert_check_schedule = r.client_cert_check_schedule;
          client_cert_expiration_period = r.client_cert_expiration_period;
        })

  auths-IsDeep : AreDeep libraries → IsDeep auths
  auths-IsDeep deep =
      of_fields-IsDeep
        (both-IsDeep (referring-IsDeep (λ c. option_map some (flag_of c)) none) deep.times)
        (λ (r : StoredAuth T). (r.internal_ssl, r.client_cert_expiration_date))
        (λ r x. record r { internal_ssl = x.0; client_cert_expiration_date = x.1 }) _ (λ r x. refl)
        (λ r x a. refl)

  abbrev pub routes : Copier X (StoredRoute K) HawtioRoute
  routes =
      of_fields libraries.keys (λ r. r.ca_cert) (λ r x. record r { ca_cert = x })
        (λ r a. record { cert_secret = r.cert_secret; ca_cert = a })

  routes-IsDeep : AreDeep libraries → IsDeep routes
  routes-IsDeep deep =
      of_fields-IsDeep deep.keys (λ (r : StoredRoute K). r.ca_cert)
        (λ r x. record r { ca_cert = x }) _ (λ r x. refl) (λ r x a. refl)

  abbrev pub specs : Copier X (StoredSpec K T Q) HawtioSpec
  specs =
      of_fields
        (both (pointer int_of) (
          both propagations (
            both routes (
              both (slice strings_of) (
                both auths
                  (both rbacs (both libraries.quantities (both configs health_check_periods))))))))
        (λ r. (
          r.replicas,
          (
            r.metadata_propagation,
            (
              r.route,
              (r.external_routes, (r.auth, (r.rbac, (r.resources, (r.config, r.health_checks))))),
            ),
          ),
        ))
        (λ r x. record r {
          replicas = x.0;
          metadata_propagation = x.1.0;
          route = x.1.1.0;
          external_routes = x.1.1.1.0;
          auth = x.1.1.1.1.0;
          rbac = x.1.1.1.1.1.0;
          resources = x.1.1.1.1.1.1.0;
          config = x.1.1.1.1.1.1.1.0;
          health_checks = x.1.1.1.1.1.1.1.1;
        })
        (λ r a. record {
          kind = r.kind;
          replicas = a.0;
          metadata_propagation = a.1.0;
          route_host_name = r.route_host_name;
          route = a.1.1.0;
          external_routes = a.1.1.1.0;
          version = r.version;
          auth = a.1.1.1.1.0;
          nginx = r.nginx;
          rbac = a.1.1.1.1.1.0;
          resources = a.1.1.1.1.1.1.0;
          config = a.1.1.1.1.1.1.1.0;
          logging = r.logging;
          health_checks = a.1.1.1.1.1.1.1.1;
        })

  specs-IsDeep : AreDeep libraries → IsDeep specs
  specs-IsDeep deep =
      of_fields-IsDeep
        (both-IsDeep (referring-IsDeep (λ c. option_map some (int_of c)) none) (
          both-IsDeep propagations-IsDeep (
            both-IsDeep (routes-IsDeep deep) (
              both-IsDeep (referring-IsDeep strings_of []) (
                both-IsDeep (auths-IsDeep deep) (
                  both-IsDeep rbacs-IsDeep (
                    both-IsDeep deep.quantities
                      (both-IsDeep configs-IsDeep health_check_periods-IsDeep))))))))
        (λ (r : StoredSpec K T Q). (
          r.replicas,
          (
            r.metadata_propagation,
            (
              r.route,
              (r.external_routes, (r.auth, (r.rbac, (r.resources, (r.config, r.health_checks))))),
            ),
          ),
        ))
        (λ r x. record r {
          replicas = x.0;
          metadata_propagation = x.1.0;
          route = x.1.1.0;
          external_routes = x.1.1.1.0;
          auth = x.1.1.1.1.0;
          rbac = x.1.1.1.1.1.0;
          resources = x.1.1.1.1.1.1.0;
          config = x.1.1.1.1.1.1.1.0;
          health_checks = x.1.1.1.1.1.1.1.1;
        })
        _ (λ r x. refl) (λ r x a. refl)

  abbrev pub hawtios : Copier X (StoredHawtio M K T Q) Hawtio
  hawtios =
      of_fields (both libraries.metas specs) (λ r. (r.metadata, r.spec))
        (λ r x. record r { metadata = x.0; spec = x.1 })
        (λ r a. record { metadata = a.0; spec = a.1; status = r.status })

  hawtios-IsDeep : AreDeep libraries → IsDeep hawtios
  hawtios-IsDeep deep =
      of_fields-IsDeep (both-IsDeep deep.metas (specs-IsDeep deep))
        (λ (r : StoredHawtio M K T Q). (r.metadata, r.spec))
        (λ r x. record r { metadata = x.0; spec = x.1 }) _ (λ r x. refl) (λ r x a. refl)

  -- After `DeepCopy` of a custom resource, whatever is written to memory outside the copy, the copy reads
  -- as the resource did; and whatever is written outside what was in use before, the resource does. Nil is
  -- copied to nil. The deep copies of the other packages' types are taken to be deep.
  pub deep_copy_hawtio-IsSeparate :
      (deep : AreDeep libraries) (s t u : Store X) (p : Option (StoredHawtio M K T Q))
      (a : Option Hawtio)
      → pointed hawtios s p ≡ some a
      → Kept s.next
          (deep_copy (copy_hawtio libraries) p s).1.next
          (deep_copy (copy_hawtio libraries) p s).1
          t
      → Kept 0 s.next (deep_copy (copy_hawtio libraries) p s).1 u
      → (pointed hawtios t (deep_copy (copy_hawtio libraries) p s).0 ≡ some a)
        × (pointed hawtios u p ≡ some a)
  unfolding copy_hawtio
  deep_copy_hawtio-IsSeparate deep s t u p a e k l =
      deep_copy-pointed hawtios (hawtios-IsDeep deep) s t u p a e k l
