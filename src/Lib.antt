-- ===== src/Lib.antt =====
-- The Hawtio operator: a Kubernetes operator that deploys the Hawtio console for each custom resource of
-- the kind Hawtio, on Kubernetes and on OpenShift.
--
-- The program's parts and the files that model them:
--   Base        shared types and lemmas: maps, errors, actions on an outside world and those that
--               succeed, integers
--   Kube        the objects of Kubernetes and OpenShift that the operator reads and writes, whose types
--               are of other projects: the fields that it touches
--   Api         pkg/apis/hawtio/v2/hawtio_types.go, the custom resource; Memory is
--               zz_generated.deepcopy.go, the resource as it stands in memory with its deep copies
--   Capabilities  pkg/capabilities, what the cluster's API offers
--   Util        pkg/util: patterns, merged maps, files, image versions, the SSL decision; Text and Split are
--               Go's strings and path packages as far as the code uses them
--   Resources   pkg/resources and pkg/openshift: the objects that the operator wants, built from the
--               custom resource (labels, environment, containers, volumes, deployment, service,
--               console configuration, route, ingress, OAuth client, console links, console samples)
--   Updater     pkg/updater, the poller of the image registry
--   Controller  pkg/controller/hawtio, the reconciler: Cluster holds its clients, Crypto the cryptography,
--               Issue and Certificate the certificates, Lifecycle and Defaults the steps before the
--               objects, Reconcile/* one module for each kind of object, Run the method Reconcile in its
--               phases with what holds of a call, Status what it reports, Watches the function Add with the
--               events that start a call, Timers and Rotation when the next call is due
--   Manager     cmd/manager, pkg/manager and pkg/clients: Settings the environment, Cache what the cache
--               holds, Poller, Clients and Options what the manager is made of, Build the function New,
--               Main the operator's start
--   Tests       the theorems at concrete inputs
--
-- How they interact. The start reads the environment, finds out the cluster's capabilities, builds the
-- manager with its cache and its poller, and registers the reconciler with the watches. Reconcile reads the
-- custom resource, prepares it (finalizer, type, phase), makes the objects that Resources builds agree with the
-- cluster in a fixed order, and writes the status. The poller runs beside it: Reconcile reads its digests, and
-- its events start calls. Each function of the source is a definition with its name in snake case, and its doc
-- comment names the function.
--
-- State. A call of the cluster is an action: it takes the outside world `W`, and returns a result and the
-- world that it leaves, also when it fails. `W` is a parameter, so the theorems hold for every cluster and every
-- interleaving of other writers that its operations describe. Elsewhere than in Api/Memory a custom resource
-- is a value: the code changes a resource beside an unchanged copy of it only after DeepCopy, and Api/Memory is
-- about what that gives. The clients, the clock, the registry, the cryptography, encoding/json, YAML, files and
-- the semver library are parameters, since their code is of other projects; what a theorem needs of them is a
-- hypothesis that it names.
--
-- Conventions. A Go map is an association list, and a nil map is the empty one; nil pointers and slices that
-- the code tells apart are `none`. Durations and counts are integers over the native numbers, with the
-- wrap-around of int64 written out where the code multiplies or subtracts. The only fuel is that of printing a
-- port number (20 further digits, where an int32 has at most 10).
--
-- Not modelled: vendored libraries, earlier versions of the API with their deep copies, the deep copy of a list
-- of resources, logging, the registration of types, and build scripts. What a reconciliation function returns
-- beside an error is only logged, and is left out.
pub mod Base
pub mod Kube
pub mod Manager
pub mod Api
pub mod Capabilities
pub mod Util
pub mod Resources
pub mod Updater
pub mod Controller
pub mod Tests
