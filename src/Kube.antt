-- ===== src/Kube.antt =====
-- The Kubernetes and OpenShift objects that the operator reads and writes, with the fields that it
-- touches. Their types are of other projects (k8s.io/api, k8s.io/apimachinery, openshift/api).
pub mod Workload
pub mod Network
use hawtio_operator.Base.{ℕ, String, Bool, Option, none, List, []}
use hawtio_operator.Base.Dict.{Dict}

-- Nanoseconds since Go's zero time.
abbrev pub Time : Type 0
Time = ℕ

pub record Key : Type 0 where
  pub namespace : String
  pub name : String

pub record ObjectMeta : Type 0 where
  pub name : String
  pub generate_name : String
  pub namespace : String
  pub resource_version : String
  pub uid : String
  pub self_link : String
  pub creation_timestamp : Time
  pub generation : ℕ
  pub deletion_timestamp : Option Time
  pub labels : Dict String
  pub annotations : Dict String
  pub owner_references : List String
  pub finalizers : List String

abbrev pub named : String → String → ObjectMeta
named name namespace = record {
  name = name;
  generate_name = "";
  namespace = namespace;
  resource_version = "";
  uid = "";
  self_link = "";
  creation_timestamp = 0;
  generation = 0;
  deletion_timestamp = none;
  labels = [];
  annotations = [];
  owner_references = [];
  finalizers = [];
}

-- What every object has: its metadata, read and replaced.
pub record Object (A : Type 0) : Type 0 where
  pub meta : A → ObjectMeta
  pub with_meta : A → ObjectMeta → A

pub record ConfigMap : Type 0 where
  pub metadata : ObjectMeta
  pub contents : Dict String
  pub binary_data : Dict String

pub record Secret : Type 0 where
  pub metadata : ObjectMeta
  pub contents : Dict String
  pub kind : String

pub record ServiceAccount : Type 0 where
  pub metadata : ObjectMeta

-- A nil list of redirect URIs is `none`.
pub record OauthClient : Type 0 where
  pub metadata : ObjectMeta
  pub grant_method : String
  pub redirect_uris : Option (List String)
