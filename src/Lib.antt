-- ===== src/Lib.antt =====
-- Verification of the CAREN runtime extensions.
--
-- The program extends Cluster API for Nutanix: an admission webhook that runs preflight checks on a
-- new Cluster, controllers that keep Clusters in shape, handlers of the lifecycle hooks of Cluster
-- API, and mutation handlers for the templates of a Cluster class. The files here model eleven of
-- its parts; they do not share state, and most meet in the result type of the preflight checks,
-- which the Nutanix checks return and the webhook sums up, and in the client of Prism Central,
-- which they call.
--
-- Preflight (pkg/webhook/preflight)
--   Preflight holds the data of preflight.go: Cause, CheckResult, Check. Skip is skip/skip.go: the
--   evaluator of the annotation that skips checks (New, For, ForAll). Run is `run` of preflight.go,
--   the goroutines of checkers and checks as a step relation over the slots that they write;
--   Run/Spec is what they compute, in order. Handler is `Handle`: its guards, the comparison with
--   the old cluster, the summary of the results and the answer. The decoder, the comparison of
--   specs and `Topology.IsDefined` are parameters. A panic of a check is one of its outcomes. The
--   timeout of the context is not modelled: a check that sees it returns a result like any other.
--
-- FailureDomains (pkg/controllers/failuredomainrollout/controller.go)
--   Distribution is the arithmetic on the numbers of machines by failure domain, Decision the
--   functions that decide on a rollout from the machines and the control plane, Reconcile the
--   reconciler. The answers of the API server and the clock are arguments, and the object that
--   `Update` is called with is part of the outcome. A map of counts is the list of its entries in
--   the order in which the loop meets them. Counts are natural numbers: replicas are not negative.
--   Times are in nanoseconds; the rounding of `metav1.Time` to seconds is a parameter of the
--   theorem on two reconciliations.
--
-- Cidr (pkg/webhook/preflight/nutanix/cidrvalidation.go)
--   Prefix is the arithmetic on prefixes, with addresses as numbers of 32 or 128 bits. Check is
--   `Run` with the validations that it calls. Resolve is resolveNodeSubnets with its cache.
--   `net/netip`'s parser and printer are parameters. Collect is collectNutanixSubnets. Check takes
--   the CIDR blocks and what the subnets are resolved to as arguments. A panic of
--   resolvePEClusterUUID on a cluster without ExtId ends the resolution, as an error with the text
--   of the panic.
--
-- Prism (pkg/webhook/preflight/nutanix: getSubnets of failuredomain.go, getClusters of
--   storagecontainer.go)
--   How the checks find subnets and clusters in Prism Central. The client is a record of the
--   replies to its calls. A nil pointer on which the code would panic counts as an error.
--
-- Metro (pkg/webhook/preflight/nutanix/metro.go, and getFailureDomainNames of failuredomain.go)
--   Domains finds the failure domains and the NutanixMetros of a cluster, Pools its node pools,
--   with the checks allNodePoolsMetroCheck and singleMetroCheck. Elements has the checks on Prism
--   Elements (number, Prism Central's own, round-trip time), Sites those on metro sites and
--   category values, Network the check of a NutanixMetro and its subnets, and Plan is
--   newMetroChecks, which puts them together. Report has failCheck, with the wording of the
--   messages as a parameter `say`. The objects of the management cluster (`Kube`), the client of
--   Prism Central, the Prism Element that hosts Prism Central and the round-trip times are
--   parameters; a round-trip time is a number of microseconds. The texts that are wrapped round an
--   error are left out.
--
-- DomainCheck (pkg/webhook/preflight/nutanix/failuredomain.go)
--   newFailureDomainChecks and the `Run` of its checks, on the objects of Metro/Domains and the
--   client of Prism. A pointer on which `Run` panics gives a panic, one of the outcomes of
--   Preflight.
--
-- StorageCheck (pkg/webhook/preflight/nutanix/storagecontainer.go)
--   The `Run` of the checks of storage containers and getStorageContainers; Plan is
--   newStorageContainerChecks. The list call for containers is a parameter.
--
-- Mutation (common/pkg/capi/clustertopology)
--   The pipeline of mutators that handlers/mutation/meta.go runs on one template, with the object
--   that they change as state, the matchers of patches/matchers and the selectors of
--   patches/selectors. The walk over the templates and the reading of variables are Cluster API's;
--   `strconv.Quote` and `strconv.Unquote` are parameters, inverse to each other.
--
-- NamespaceSync (pkg/controllers/namespacesync)
--   Objects is the store's data with copyObjectForCreate, Server the calls of the clients with
--   createIfNotExists and getReference, Copy the rest of copy.go and references.go with
--   `Reconcile`, and Watch the event filter and clusterClassToNamespaces. Every call has a number,
--   and a function from numbers says whether it fails or, for a read, is answered from a cache
--   without the object. Others that write into the store at the same time are not modelled.
--
-- Hooks (common/pkg/capi/clustertopology/handlers/lifecycle/parallel.go)
--   Aggregate is aggregateResponses, with `util.LowestNonZeroInt32` as a parameter of which the
--   laws are named. Run is runHooksInParallel: the goroutines of the hooks, the wait group, the
--   channel with its capacity, the goroutine that closes it and the reading loop as a step
--   relation. A hook returns; its context and its panics are not modelled.
--
-- Autoscaler (pkg/controllers/enforceclusterautoscalerlimits/controller.go)
--   The reconciler with the readers of the two annotations; `strconv.Atoi` is a parameter.
--
-- Prelude holds what the parts share: text as a list of ASCII codes with the functions of Go's
-- `strings` that they use, association lists, lists measured by native numbers, signed integers.
--
-- All loops of the program are recursions on lists, so that they need no fuel. Only `decimal` of
-- Prelude, which prints a number, has fuel: the number plus one, more than it has digits. The
-- schedules of goroutines are bounded by a count of the work that is left.
--
-- Not modelled: logging, metrics and tracing; the wiring of controllers and webhooks; the mutation
-- handlers, the installation of addons and the other preflight checks and webhooks; the API types,
-- of which the records here hold the fields that the code reads.
pub mod Prelude
pub mod Autoscaler
pub mod Cidr
pub mod DomainCheck
pub mod FailureDomains
pub mod Hooks
pub mod Metro
pub mod Mutation
pub mod NamespaceSync
pub mod Preflight
pub mod Prism
pub mod StorageCheck
