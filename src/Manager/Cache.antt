-- ===== src/Manager/Cache.antt =====
-- pkg/manager/manager.go: the namespaces and the kinds of objects that the manager's cache holds.
pub mod Namespaces
use hawtio_operator.Base.{String, Bool, true, false, Option, none, some, List, [], ◌∷◌, ◌++◌}
use hawtio_operator.Base.{◌==◌, if◌then◌else◌}
use hawtio_operator.Base.Dict.{Dict, insert}
use hawtio_operator.Capabilities.{ApiServerSpec}
use hawtio_operator.Util.Split.{split, trim_space}

-- An empty `cache.Config`.
abbrev pub CacheConfig : Type 0
CacheConfig = Unit {0}

-- The kinds of the keys of `ByObject`.
pub data CachedKind : Type 0 where
  deployment config_map secret ingress route : CachedKind

-- `DefaultNamespaces` is nil for all namespaces. A label is selected by its value.
pub record CacheOptions : Type 0 where
  pub default_namespaces : Option (Dict CacheConfig)
  pub by_object : List (CachedKind × String × String)

-- The loop over the pieces of the text.
unfoldable add_namespaces : List String → Dict CacheConfig → Dict CacheConfig
add_namespaces [] namespaces = namespaces
add_namespaces (piece ∷ pieces) namespaces =
    let clean = trim_space piece in
    add_namespaces pieces (if clean == "" then namespaces else insert clean tt namespaces)

unfoldable pub watched_namespaces : String → Option (Dict CacheConfig)
unfolding add_namespaces split trim_space
watched_namespaces text = if text == "" then none else some (add_namespaces (split "," text) [])

abbrev labelled : CachedKind → CachedKind × String × String
labelled kind = (kind, "app", "hawtio")

-- `createCacheOptions`
unfoldable pub create_cache_options : String → ApiServerSpec → CacheOptions
unfolding watched_namespaces
create_cache_options text api = record {
  default_namespaces = watched_namespaces text;
  by_object =
      (labelled CachedKind.deployment
        ∷ labelled CachedKind.config_map
        ∷ labelled CachedKind.secret
        ∷ labelled CachedKind.ingress
        ∷ [])
      ++ (if api.routes then labelled CachedKind.route ∷ [] else []);
}
