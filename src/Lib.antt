-- ===== src/Lib.antt =====
-- A model of the Layer7 operator, which reconciles the Kubernetes objects of a Gateway resource.
--
-- The operator reads a Gateway and makes from its spec a Deployment, two Services, an Ingress, a
-- HorizontalPodAutoscaler, a Secret and up to four ConfigMaps. At each reconciliation it reads each of
-- these objects, creates it where it is missing and may update it where it differs; then it reports on
-- the pods in the Gateway's status. The builders are pure functions of the Gateway. The controller
-- calls them, and the API client.
--
-- The parts, and the files of this library:
--   Api (api/v1/gateway_types.go): the structs of the Gateway resource, with the source's fields.
--     Values that the operator only passes on (quantities, metrics, conditions, TLS entries of an
--     Ingress) are texts, `Kube.Meta.Raw`.
--   Kube: the fields of the Kubernetes types that the operator reads or sets.
--   Labels and Namespaces (pkg/gateway/util/util.go): DefaultLabels and Contains; GetWatchNamespace and
--     GetOperatorNamespace.
--   Bundle (pkg/gateway/util/bundle.go): the bundle structs in Xml, randToken in Token, BuildCWPBundle
--     in Cwp, BuildListenPortBundle in ListenPort.
--   Build.Deployment (pkg/gateway/deployment.go): NewDeployment. Storage collects the volumes and the
--     mounts as the source appends them, Containers makes the gateway container, Repository the init
--     container that clones a repository.
--   Build.Config, Build.Secret, Build.Service, Build.Ingress, Build.Hpa (pkg/gateway/config/config.go,
--     secrets/secrets.go, service/service.go, ingress/ingress.go and hpa/hpa.go beside it): the
--     other builders, by their Go names in snake case (NewConfigMap is new_config_map).
--   Controller (pkg/controllers/gateway/controller.go): Objects has the functions that create or update
--     one object, Status updateGatewayStatus, Leader tagManagementPod, Commit reconcileBundles (with
--     GetLatestCommit of pkg/gateway/util/git.go), Reconcile the handler itself. Equality is
--     reflect.DeepEqual at the types that are compared, Zero the zero values that Get fills in.
--   Startup (main.go, and SetupWithManager of controller.go): the options of the manager, and the calls
--     of main in their order.
--   Files (pkg/gateway/util/zip.go): Path has Clean, Join and Dir of path/filepath, Unzip the function.
--   Rest (pkg/gateway/util/rest.go): RestCall. Commands (clientcmd/clientcmd.go): NewClient, PodLogs with
--     the scanner of lines, IsPodRunning and Exec.
--   Proofs stand below the part that they are about. In Controller, Settled and Repeat have the lemmas on
--     a pass over an object that follows another one, and Present those on what a pass leaves there.
--     Converge is about two reconciliations in a row: Places has the places of the cluster, Facts what
--     holds at a place, Steps the steps of Reconcile, each with the fact that it establishes and the
--     place that it writes, Writes, Asked and Drawn the objects that are written every time, Parts
--     the calls in their order, Done what each adds, and Whole puts them together. Desired describes
--     what the cluster should hold, Isolated is about the objects of other namespaces, and
--     Obedient, Mapped, Ending and Reached are about a cluster that accepts what it is sent.
--     Stored, Held and Resumed follow the Gateway at the server, from a status update to the next
--     request, which reads it anew, and Mounted is about the ConfigMaps that the pods mount.
--     Footprint is about what a reconciliation leaves alone, whatever comes of it: Bounds lists
--     the objects that a Gateway owns, Served has the steps of the operator and of other clients,
--     in turn, and Collision is about two Gateways whose ConfigMaps share a name. Returns is about
--     what may panic.
--   Tests: a sample Gateway and a cluster in memory.
--
-- Effects: a Go function with an error result is an `Exec S A`, a function of the state that gives an
-- outcome (a value, an error, or a panic) and the next state. The state `Run` of the controller holds
-- the Gateway, which the functions share by a pointer and which a status update fills in again, the
-- cluster, and the source of random bytes and map orders.
--
-- Parameters: `Client` is what the controller calls outside the repository: the API client of
-- controller-runtime, SetControllerReference, json.Marshal and go-git. `Runtime` is what the builders
-- call: random bytes, the order in which a map is ranged over, floating-point arithmetic, quantities and
-- xml.Marshal. `Platform` is what main calls of controller-runtime, `Disk` what Unzip calls of os, io and
-- archive/zip, `Http` what RestCall calls of net/http, and `Commands.Cluster` what clientcmd calls of
-- client-go. Nothing is assumed of them, but for named hypotheses where a theorem needs one:
-- `IsStore` (a read after an accepted write gives an object with the parts that were sent),
-- `KeepsKeys` (setting an owner keeps the name and the namespace) and `EchoesStatus` (a status update
-- answers with the status that was sent). `IsCluster` gathers these and adds that a write changes the
-- object at its own place alone, while no other client writes. `IsPlain` says that a Gateway asks
-- neither for bundles with drawn ids nor for autoscaling, both of which are written at every
-- reconciliation, and that its license Secret is not the one that the operator writes; `IsLicensed`
-- says the latter alone. `IsSafe` says that the calls of Go's libraries do not panic.
-- `IsObedient` says that the server accepts what it is sent, lists pods that have all started, and
-- that the repository can be read; `HasSecrets` that the Secrets that the spec names are there.
-- `StoresGateways` says that the server answers a read of a Gateway with what the last status update
-- answered, but that an empty list of the status, which omitempty leaves out, may be read as nil.
-- `IsLocal` says that a call changes the object at its own place alone, also where it fails;
-- `FindsInNamespace` that a Gateway is read in the namespace that was asked for; and `IsTame` that the
-- calls of libraries do not panic, pods that are listed have started and a repository has a head.
--
-- All loops are over lists and are structural recursion, so that no fuel is used. Go's maps are
-- association lists that hold a key once, and nil slices and maps are told apart from empty ones where
-- reflect.DeepEqual does so. Integers are only passed on, compared and turned into floating-point numbers,
-- and are mathematical integers. Go's texts are texts of characters, as they are valid UTF-8, and the
-- logs of a pod are lists of bytes.
-- A reconciliation is one sequence of calls, into which no other writer's calls are mixed; between two
-- reconciliations other clients may change the cluster (`Serves` in Controller.Footprint.Served).
--
-- Not modelled: logging; the parsing of the flags; the method REST of clientcmd, which hands out a client;
-- pkg/gateway/jobs/taurus.go, whose code is commented out; packages of one line; generated deep copies
-- and the registration of the types.
pub mod Prelude
pub mod Kube
pub mod Api
pub mod Runtime
pub mod Bundle
pub mod Labels
pub mod Build
pub mod Files
pub mod Namespaces
pub mod Startup
pub mod Rest
pub mod Commands
pub mod Controller
pub mod Tests
