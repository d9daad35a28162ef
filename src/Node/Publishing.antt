-- ===== src/Node/Publishing.antt =====
-- NodePublishVolume and NodeUnpublishVolume, and createMountPoint of driver/helpers.go.
pub mod Mounts
use exoscale_csi_driver.Base.{
  ℤ, pos, negsuc, eqb_ℤ, Bool, true, false, not, ◌&&◌, ◌||◌, String, str_eq, Option, none, some,
  List, [], ◌∷◌, ◌++◌, if◌then◌else◌, already_exists, failed_precondition, invalid_argument,
  not_found, internal_error, status, no_args, text_arg, error_arg, is_not_exist, Error, Result,
  Action, pure, fail, lift, handle, or_else, ◌>>=◌, ◌>>◌,
}
use exoscale_csi_driver.Csi.{AccessType, no_access_type, block, mount, VolumeCapability}
use exoscale_csi_driver.Helpers.{get_exoscale_id}
use exoscale_csi_driver.Os.{Os}
use exoscale_csi_driver.Disk.Paths.{dir}
use exoscale_csi_driver.Disk.MountInfo.{MountInfo}
use exoscale_csi_driver.Disk.Utils.{
  get_device_path, is_shared_mounted, is_block_device, get_mount_info, mount_to_target, unmount,
}
use exoscale_csi_driver.Node.{require_path}
use exoscale_csi_driver.Node.Staging.{required_capability}

pub record PublishRequest : Type 0 where
  pub volume_id : String
  pub staging_target_path : String
  pub target_path : String
  pub volume_capability : Option VolumeCapability
  pub read_only : Bool

-- `GetBlock() != nil` and `GetMount() != nil`
abbrev pub is_block : AccessType → Bool
is_block block = true
is_block _ = false

abbrev pub is_mount : AccessType → Bool
is_mount (mount _) = true
is_mount _ = false

-- The first of the options "rw" and "ro" decides.
unfoldable pub has_ro : List String → Bool
has_ro [] = false
has_ro (opt ∷ opts) =
    if str_eq opt "rw" then false else if str_eq opt "ro" then true else has_ro opts

unfoldable pub is_read_only : Option MountInfo → Bool
unfolding has_ro
is_read_only none = false
is_read_only (some info) = has_ro info.mount_options

-- What is mounted on the target: the source, the type and the flags of the request.
unfoldable pub mount_flags : AccessType → List String
mount_flags (mount m) = m.mount_flags
mount_flags _ = []

unfoldable pub mount_type : AccessType → String
mount_type (mount m) = m.fs_type
mount_type _ = ""

unfoldable pub mount_source : String → String → AccessType → String
mount_source device_path staging_target_path (mount _) = staging_target_path
mount_source device_path staging_target_path block = device_path
mount_source device_path staging_target_path no_access_type = ""

unfoldable pub mount_options : AccessType → Bool → List String
unfolding mount_flags
mount_options access_type read_only =
    (mount_flags access_type ++ "bind" ∷ []) ++ (if read_only then "ro" ∷ [] else [])

-- The errors of NodePublishVolume.
abbrev pub create_failed : PublishRequest → String → Error → Error
create_failed req volume_id e =
    status internal_error "error creating mount point %s for volume with ID %s"
      (text_arg req.target_path (text_arg volume_id no_args))

abbrev pub mount_failed : PublishRequest → String → AccessType → Error → Error
mount_failed req source access_type e =
    status internal_error "error mounting source %s to target %s with fs of type %s : %s" (
      text_arg source
        (text_arg req.target_path (text_arg (mount_type access_type) (error_arg e no_args))))

abbrev pub check_failed : PublishRequest → String → Error → Error
check_failed req volume_id e =
    status internal_error "error checking mount point of volume %s on path %s: %v"
      (text_arg volume_id (text_arg req.staging_target_path (error_arg e no_args)))

abbrev pub capability_refused : Error → Error
capability_refused e =
    status invalid_argument "volumeCapability not supported: %s" (error_arg e no_args)

abbrev pub device_missing : String → Error → Error
device_missing volume_id e =
    status not_found "volume %s not found: %s" (text_arg volume_id (error_arg e no_args))

abbrev open_failed : String → Error → Error
open_failed device_path e =
    status internal_error "error opening block device %s: %s"
      (text_arg device_path (error_arg e no_args))

module _ (O : Os) where
  -- A deferred close: its error is dropped.
  close_fd : ℤ → Action O.State (Unit {0})
  close_fd fd = handle (O.close fd) (λ _. pure tt) pure

  -- `m` with the descriptor closed behind it, whether it fails or not.
  closing : {B : Type 0} → ℤ → Action O.State B → Action O.State B
  unfolding close_fd
  closing fd m = handle m (λ e. do close_fd fd; fail e) (λ b. do close_fd fd; pure b)

  unfoldable pub create_mount_point : String → Bool → Action O.State (Unit {0})
  unfolding dir
  create_mount_point path file = do
    handle (O.stat path) (λ e. if is_not_exist e then pure tt else fail e) (λ _. pure tt)
    (if file
        then (do
          O.mkdir_all (dir path) 0o755
          f ← O.create_file path 0o644
          handle (O.close_file f) (λ _. pure tt) pure)
        else O.mkdir_all path 0o755)

  -- The read-only flag of the device; a descriptor that was not opened is -1.
  unfoldable pub device_read_only : String → Action O.State Bool
  unfolding closing
  device_read_only device_path =
      handle (O.openat device_path)
        (λ e. closing (negsuc 0) (
          fail (
            status internal_error "error opening block device %s: %s"
              (text_arg device_path (error_arg e no_args)))))
        (λ fd. closing fd do
          ro ← or_else (O.blkroget fd) λ e.
              status internal_error "error getting BLKROGET for block device %s: %s"
                (text_arg device_path (error_arg e no_args))
          pure (eqb_ℤ ro (pos 1)))

  abbrev close_and_fail : String → ℤ → Error → Action O.State (Unit {0})
  unfolding close_fd
  close_and_fail device_path fd e = do
    close_fd fd
    fail (
        status internal_error "error setting BLKROSET for block device %s: %s"
          (text_arg device_path (error_arg e no_args)))

  unfoldable pub set_device_read_only : String → Action O.State (Unit {0})
  unfolding close_fd
  set_device_read_only device_path = do
    fd ← or_else (O.openat device_path) (open_failed device_path)
    handle (O.blkroset fd (pos 1)) (close_and_fail device_path fd) (λ _. close_fd fd)

  same_block_mode : PublishRequest → String → String → Action O.State (Unit {0})
  unfolding device_read_only
  same_block_mode req volume_id device_path = do
    ro ← device_read_only device_path
    (if (ro && req.read_only) || (not ro && not req.read_only)
        then pure tt
        else fail (
            status already_exists "volume %s does not match the given mount mode for the request"
              (text_arg volume_id no_args)))

  same_mount_mode : PublishRequest → String → Action O.State (Unit {0})
  unfolding get_mount_info is_read_only
  same_mount_mode req volume_id = do
    mount_info ← or_else (get_mount_info O req.target_path) λ e.
        status internal_error "error getting mount information of path %s: %s"
          (text_arg req.target_path (error_arg e no_args))
    (if (is_read_only mount_info && req.read_only)
          || (not (is_read_only mount_info) && not req.read_only)
        then pure tt
        else fail (
            status already_exists
              "volume with ID %s does not match the given mount mode for the request"
              (text_arg volume_id no_args)))

  -- The answer for a target on which something is mounted already.
  unfoldable pub already_published :
      PublishRequest → String → String → AccessType → Action O.State (Unit {0})
  unfolding is_block_device same_block_mode same_mount_mode
  already_published req volume_id device_path access_type = do
    block_device ← or_else (is_block_device O req.target_path) λ e.
        status internal_error "error checking stat for %s: %s"
          (text_arg req.target_path (error_arg e no_args))
    (if (block_device && is_mount access_type) || (not block_device && is_block access_type)
        then fail (status already_exists "cannot change volumeCapability type" no_args)
        else if is_block access_type
        then same_block_mode req volume_id device_path
        else same_mount_mode req volume_id)

  -- The mount itself, for a target on which nothing is mounted.
  unfoldable pub publish_mount :
      PublishRequest → String → String → AccessType → Action O.State (Unit {0})
  unfolding set_device_read_only create_mount_point mount_to_target mount_source mount_type
      mount_options
  publish_mount req volume_id device_path access_type = do
    (if is_block access_type && req.read_only then set_device_read_only device_path else pure tt)
    or_else (create_mount_point req.target_path (is_block access_type))
        (create_failed req volume_id)
    let source = mount_source device_path req.staging_target_path access_type
    or_else
        (mount_to_target O source req.target_path (mount_type access_type)
          (mount_options access_type req.read_only))
        (mount_failed req source access_type)

  unfoldable pub publish_device :
      PublishRequest → String → String → AccessType → Action O.State (Unit {0})
  unfolding is_shared_mounted already_published publish_mount
  publish_device req volume_id device_path access_type = do
    is_mounted ←
        or_else (is_shared_mounted O req.target_path device_path) (check_failed req volume_id)
    (if is_mounted
        then already_published req volume_id device_path access_type
        else publish_mount req volume_id device_path access_type)

  unfoldable pub node_publish_volume :
      (String → Result String) → PublishRequest → Action O.State (Unit {0})
  unfolding required_capability get_device_path publish_device
  node_publish_volume parse_uuid req = do
    (_, volume_id) ← lift (get_exoscale_id parse_uuid req.volume_id)
    require_path invalid_argument "targetPath not provided" req.target_path
    c ← lift (
        required_capability "volumeCapability not provided" capability_refused
          req.volume_capability)
    require_path failed_precondition "stagingTargetPath not provided" req.staging_target_path
    device_path ← or_else (get_device_path O volume_id) (device_missing volume_id)
    publish_device req volume_id device_path c.access_type

  unfoldable pub node_unpublish_volume : String → Action O.State (Unit {0})
  unfolding unmount
  node_unpublish_volume target_path = do
    require_path invalid_argument "targetPath not provided" target_path
    or_else (unmount O target_path)
        λ e. status internal_error "error unmounting target path: %s" (error_arg e no_args)
