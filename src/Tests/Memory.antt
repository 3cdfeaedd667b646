-- ===== src/Tests/Memory.antt =====
-- The theorem on deep copies at a resource whose number of replicas stands in memory.
use hawtio_operator.Base.{ℕ, ◌≡◌, refl, Option, none, some, arith}
use hawtio_operator.Base.{nat_eq, if◌then◌else◌}
use hawtio_operator.Base.Int.{pos}
use hawtio_operator.Kube.{Time, ObjectMeta, named}
use hawtio_operator.Kube.Workload.{ResourceRequirements}
use hawtio_operator.Api.{Hawtio, SecretKeySelector, new_hawtio}
use hawtio_operator.Api.Memory.{
  Cell, int, foreign, Store, Copier, option_map, pointer, IsDeep, pure,
}
use hawtio_operator.Api.Memory.Stored.{Libraries, StoredHawtio}
use hawtio_operator.Api.Memory.Copies.{deep_copy, copy_hawtio}
use hawtio_operator.Api.Memory.Separate.{referring-IsDeep}
use hawtio_operator.Api.Memory.Structs.{pointed}
use hawtio_operator.Api.Memory.Values.{AreDeep, hawtios, deep_copy_hawtio-IsSeparate}

-- A type without references
abbrev plain : {X A : Type 0} → Copier X A A
plain = record { read = λ s r. some r; copy = pure }

plain-IsDeep : {X A : Type 0} → IsDeep (plain {X = X} {A = A})
plain-IsDeep = record {
  stable = λ s t r a e k. e;
  keeps = λ s r. (omega arith, λ n p q. refl);
  copied = λ s t r a e k. e;
}

abbrev time_of : Cell Time → Option Time
time_of (foreign t) = some t
time_of _ = none

abbrev libraries : Libraries Time ObjectMeta SecretKeySelector (Option ℕ) ResourceRequirements
libraries = record { metas = plain; keys = plain; times = pointer time_of; quantities = plain }

libraries-AreDeep : AreDeep libraries
libraries-AreDeep = record {
  metas = plain-IsDeep;
  keys = plain-IsDeep;
  times = referring-IsDeep (λ c. option_map some (time_of c)) none;
  quantities = plain-IsDeep;
}

-- Two replicas, by the pointer at address 0, and an end of the certificates, at address 1.
abbrev stored : StoredHawtio ObjectMeta SecretKeySelector (Option ℕ) ResourceRequirements
stored =
    let h = new_hawtio in
    record {
      metadata = named "online" "web";
      spec = record {
        kind = "Cluster";
        replicas = some 0;
        metadata_propagation = record { annotations = none; labels = none };
        route_host_name = "";
        route = record { cert_secret = ""; ca_cert = h.spec.route.ca_cert };
        external_routes = none;
        version = "";
        auth = record {
          internal_ssl = none;
          client_cert_common_name = "";
          client_cert_expiration_date = some 1;
          client_cert_check_schedule = "";
          client_cert_expiration_period = pos 0;
        };
        nginx = h.spec.nginx;
        rbac = record { config_map = ""; disable_rbac_registry = none };
        resources = h.spec.resources;
        config = record {
          about = record {
            title = "";
            product_infos = none;
            additional_info = "";
            description = "";
            copyright = "";
            img_src = "";
            img_dark_mode_src = "";
            background_img_src = "";
          };
          branding = h.spec.config.branding;
          online = h.spec.config.online;
          disabled_routes = none;
        };
        logging = h.spec.logging;
        health_checks = record {
          online_readiness_period = none;
          online_liveness_period = none;
          gateway_readiness_period = none;
          gateway_liveness_period = none;
        };
      };
      status = h.status;
    }

abbrev memory : Store Time
memory = record { next = 2; cell = λ n. if nat_eq n 0 then int (pos 2) else foreign 1000 }

abbrev value : Hawtio
value =
    let h = new_hawtio in
    record h {
      metadata = named "online" "web";
      spec = record h.spec {
        kind = "Cluster";
        replicas = some (pos 2);
        auth = record h.spec.auth { internal_ssl = none; client_cert_expiration_date = some 1000 };
      };
    }

abbrev after_copy : Store Time
after_copy = (deep_copy (copy_hawtio libraries) (some stored) memory).1

-- A write of seven replicas at an address
abbrev written : ℕ → Store Time → Store Time
written p s = record s { cell = λ n. if nat_eq n p then int (pos 7) else s.cell n }

-- The resource's replicas are written, and then instead the copy's, at address 2.
deep_copy_hawtio-IsSeparate_example :
    (pointed
        (hawtios libraries)
        (written 0 after_copy)
        (deep_copy (copy_hawtio libraries) (some stored) memory).0
      ≡ some (some value))
    × (pointed (hawtios libraries) (written 2 after_copy) (some stored) ≡ some (some value))
unfolding deep_copy copy_hawtio
deep_copy_hawtio-IsSeparate_example =
    deep_copy_hawtio-IsSeparate libraries libraries-AreDeep memory (written 0 after_copy)
      (written 2 after_copy) (some stored) (some value) refl (omega arith, λ n p q. ground arith)
      (omega arith, λ n p q. ground arith)
