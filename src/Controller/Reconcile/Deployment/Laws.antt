-- ===== src/Controller/Reconcile/Deployment/Laws.antt =====
-- pkg/controller/hawtio/reconcile_deployment.go: the images that are pinned by their digests.
use mathlib.Core.Path.{ap₂}
use hawtio_operator.Base.{
  String, ◌<>◌, false, ◌||◌, ◌≡◌, ◌≢◌, refl, ◌∙◌, List, [], ◌∷◌, map, arith, eq_iff,
}
use hawtio_operator.Base.{◌==◌, if◌then◌else◌}
use hawtio_operator.Base.Dict.{Dict, lookup, insert, lookup-insert}
use hawtio_operator.Kube.Workload.{Container, Deployment}
use hawtio_operator.Api.{Hawtio}
use hawtio_operator.Resources.Deployment.{online_digest_annotation, gateway_digest_annotation}
use hawtio_operator.Controller.Reconcile.Deployment.{pin, pin_all, add_image_digests}

module _ (name online_repository gateway_repository online gateway : String) where
  -- The image that a container has once the digests are known: by its name alone.
  abbrev pinned_image : Container → String
  pinned_image c =
      if c.name == name <> "-gateway-container"
      then gateway_repository <> "@" <> gateway
      else (if c.name == name <> "-container" then online_repository <> "@" <> online else c.image)

  abbrev pub pinned_container : Container → Container
  pinned_container c = record c { image = pinned_image c }

  pin_lem :
      (c : Container) (annotations : Dict String)
      → (pin name online_repository gateway_repository online gateway c annotations).0
        ≡ pinned_container c
  pin_lem c annotations = ground arith

  pin_all_lem :
      (cs : List Container) (annotations : Dict String)
      → (pin_all name online_repository gateway_repository online gateway cs annotations).0
        ≡ map pinned_container cs
  unfolding pin_all
  pin_all_lem [] annotations = refl
  pin_all_lem (c ∷ cs) annotations =
      let rest = (pin name online_repository gateway_repository online gateway c annotations).1 in
      ap₂ (λ x xs. x ∷ xs) (pin_lem c annotations) (pin_all_lem cs rest)

  -- The loop writes the two annotations of the digests and no other.
  pin_all-lookup :
      (k : String) (cs : List Container) (annotations : Dict String)
      → k ≢ online_digest_annotation
      → k ≢ gateway_digest_annotation
      → lookup k (pin_all name online_repository gateway_repository online gateway cs annotations).1
        ≡ lookup k annotations
  unfolding pin_all
  pin_all-lookup k [] annotations u v = refl
  pin_all-lookup k (c ∷ cs) annotations u v =
      let rest = (pin name online_repository gateway_repository online gateway c annotations).1 in
      pin_all-lookup k cs rest u v
      ∙ ground (
        arith,
        eq_iff online_digest_annotation k,
        eq_iff gateway_digest_annotation k,
        lookup-insert online_digest_annotation k online annotations,
        lookup-insert gateway_digest_annotation k gateway annotations,
        lookup-insert gateway_digest_annotation k gateway
            (insert online_digest_annotation online annotations),
      )

-- The two digests are known.
abbrev pub AreKnown : String → String → Type 0
AreKnown online gateway = (online ≢ "") × (gateway ≢ "")

known_test :
    {online gateway : String} → online ≢ "" → gateway ≢ "" → (online == "" || gateway == "") ≡ false
known_test {online} {gateway} u v = ground (arith, eq_iff online "", eq_iff gateway "")

abbrev pub containers_of : Deployment → List Container
containers_of d = d.spec.template.containers

module _ (online_repository gateway_repository : String) (hawtio : Hawtio)
    (online gateway : String) where
  abbrev pub added : Deployment → Deployment
  added d = add_image_digests online_repository gateway_repository hawtio d online gateway

  containers_pinned :
      (d : Deployment)
      → AreKnown online gateway
      → containers_of (added d)
        ≡ map
            (pinned_container hawtio.metadata.name online_repository gateway_repository online
              gateway)
            (containers_of d)
  unfolding add_image_digests
  containers_pinned d (u, v) = rw (known_test u v) (
      pin_all_lem hawtio.metadata.name online_repository gateway_repository online gateway
        d.spec.template.containers d.spec.template.annotations)

  -- With both digests known, every container has the image that its name calls for, and is otherwise as it was;
  -- an annotation of the pod that is not of a digest is kept.
  pub add_image_digests-pins :
      (d : Deployment) (k : String)
      → AreKnown online gateway
      → k ≢ online_digest_annotation
      → k ≢ gateway_digest_annotation
      → (containers_of (added d)
          ≡ map
              (pinned_container hawtio.metadata.name online_repository gateway_repository online
                gateway)
              (containers_of d))
        × (lookup k (added d).spec.template.annotations ≡ lookup k d.spec.template.annotations)
  unfolding add_image_digests
  add_image_digests-pins d k (u, v) a b = (
    containers_pinned d (u, v),
    rw (known_test u v) (
        pin_all-lookup hawtio.metadata.name online_repository gateway_repository online gateway k
          d.spec.template.containers d.spec.template.annotations a b),
  )
