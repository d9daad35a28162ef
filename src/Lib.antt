-- ===== src/Lib.antt =====
-- The Exoscale CSI driver, as definitions that run and theorems about them.
--
-- The driver is one process that answers the calls of the Container Storage Interface, in the mode
-- of a controller, of a node, or of both. The controller service turns the calls into requests to
-- the Exoscale API (volumes, attachments, snapshots); the node service formats, mounts and grows
-- the volumes on its instance, through the disk utilities. They share no state: both read the
-- identifiers `zone/uuid` that the controller hands out, and the zone's topology.
--
-- Files and code (paths from the repository's root):
--   * Base: Go's integers, texts, errors, panics and slices as far as the driver uses them. An
--     action takes the state of the world outside the driver to a result and a new state.
--   * Csi: the messages of the CSI specification that are read or answered.
--   * Helpers: driver/helpers.go and driver/errors.go. `exoscale_id` is exoscaleID, and so on:
--     a name here is the Go name in snake case throughout.
--   * Api: the client of the Exoscale API (github.com/exoscale/egoscale/v3, under vendor/) as a
--     record of calls over an unknown state. Api.Laws says what the API documents, as the record
--     `Service`, and Api.Names what its calls do to the volumes' names, as the record `NameLaws`;
--     Api.Snapshots adds the laws of snapshots that are created or deleted. Api.Memory is a service in
--     memory that meets them all.
--   * Controller: driver/controller.go. Volumes has CreateVolume and DeleteVolume, Attachment has
--     ControllerPublishVolume and ControllerUnpublishVolume, Listing has ListVolumes and
--     ListSnapshots, Snapshots has CreateSnapshot and DeleteSnapshot, Expand has
--     ControllerExpandVolume, Queries has the other calls. Lifecycle is a step relation: sequences of
--     requests in one zone, one after the other.
--   * Os: what the node service uses of os, unix, os/exec and k8s.io/mount-utils, over an unknown
--     state. Os.Laws says what the clean-up of a mount point and os.Stat document.
--   * Disk: driver/diskutils.go. MountInfo is the parser of the mount table inside GetMountInfo,
--     Utils has the methods of diskUtils, Paths has path.Join and filepath.Dir.
--   * Node: driver/node.go. Staging has NodeStageVolume and NodeUnstageVolume, Publishing has
--     NodePublishVolume, NodeUnpublishVolume and createMountPoint of driver/helpers.go, Info has the
--     other calls.
--   * Driver: driver/driver.go, NewDriver and Run; Driver.System is what they use besides the API.
--     Driver.Version has driver/version.go.
--   * Identity: driver/identity.go.
--   * Command: cmd/exoscale-csi-driver/main.go.
--   * Integ: internal/integ, what sets a test cluster up and takes it down. Kubernetes and Egoscale are
--     the two foreign clients (Egoscale also has internal/integ/util/util.go); Flags is
--     internal/integ/flags/flags.go; K8s and Events are internal/integ/k8s/k8s.go, Namespace is
--     internal/integ/k8s/namespace.go; Retry and Cluster are internal/integ/cluster: Cluster.Csi
--     installs the driver and removes its keys, Cluster.Logs prints the pods' logs, Cluster.Setup and
--     Cluster.TearDown are the files of these names. A method that changes its receiver takes and
--     returns a state that holds it. A goroutine that is started is noted in the state, and
--     Events.Interleaving runs those of PrintEvents in any order.
--   * Tests: runs at concrete inputs.
--
-- Conventions. A handler is an action; its early returns are the errors of the result, and what was
-- done before an error stays done. A nil pointer that is read, and a slice expression that is out of
-- range, are panics, which end the action too. A message of an error keeps its format and its
-- arguments and is not rendered, and logging is left out. `int64` and `int` are integers with the
-- wrap-around of 64 bits where the code adds, subtracts or multiplies. Contexts and deadlines are
-- left out: a call that times out is a call that fails.
--
-- Recursion is structural, over the lists that the code's loops run over, over the characters of texts
-- and over the trials that retry has left, but for two cases of fuel. The decimal digits of n take at
-- most n + 1 rounds, and the client of the listing that asks for page after page gets one page more
-- than there are entries.
--
-- Not modelled: the messages of klog and slog; the goroutine that stops the server on a signal; the
-- tests themselves; the manifests in deployment/; and the vendored libraries, which are parameters.
pub mod Base
pub mod Csi
pub mod Helpers
pub mod Api
pub mod Controller
pub mod Os
pub mod Disk
pub mod Node
pub mod Driver
pub mod Command
pub mod Integ
pub mod Identity
pub mod Tests
