-- ===== src/Node/Staging.antt =====
-- NodeStageVolume and NodeUnstageVolume.
pub mod Mounts
pub mod Repeated
use exoscale_csi_driver.Base.{
  zero, suc, String, not, Option, none, some, if◌then◌else◌, is_not_exist, Error, Result, Action,
  pure, fail, lift, proceed, handle, ◌>>=◌, ◌>>◌, or_else, internal_error, invalid_argument,
  not_found, unknown, status, no_args, text_arg, texts_arg, error_arg, ok, err, panic,
}
use exoscale_csi_driver.Csi.{AccessType, block, mount, MountVolume, VolumeCapability}
use exoscale_csi_driver.Helpers.{get_exoscale_id, validate_volume_capability}
use exoscale_csi_driver.Os.{Os}
use exoscale_csi_driver.Disk.Utils.{
  get_device_path, is_shared_mounted, is_block_device, format_and_mount, unmount,
}
use exoscale_csi_driver.Node.{require_path}

pub record StageRequest : Type 0 where
  pub volume_id : String
  pub staging_target_path : String
  pub volume_capability : Option VolumeCapability

pub record UnstageRequest : Type 0 where
  pub volume_id : String
  pub staging_target_path : String

-- `volumeCapability == nil`, then `validateVolumeCapability`, whose error is replaced.
unfoldable pub required_capability :
    String → (Error → Error) → Option VolumeCapability → Result VolumeCapability
unfolding validate_volume_capability
required_capability message refused none = err (status invalid_argument message no_args)
required_capability message refused (some c) = elim (validate_volume_capability (some c)) [
  | ok _ ↦ ok c
  | err e ↦ err (refused e)
  | panic p ↦ panic p
]

-- The errors of NodeStageVolume and NodeUnstageVolume.
abbrev pub format_failed : String → String → MountVolume → Error → Error
format_failed staging_target_path device_path m e =
    status internal_error
      "format and mount device from (%q) to (%q) with fstype (%q) and options (%q): %v"
      (text_arg device_path (
        text_arg staging_target_path
          (text_arg m.fs_type (texts_arg m.mount_flags (error_arg e no_args)))))

abbrev pub staging_check_failed : String → String → Error → Error
staging_check_failed volume_id staging_target_path e =
    status internal_error "checking mount point of volume %s on path %s: %s"
      (text_arg volume_id (text_arg staging_target_path (error_arg e no_args)))

abbrev pub stat_failed : String → Error → Error
stat_failed path e =
    status internal_error "error checking stat for %s: %s" (text_arg path (error_arg e no_args))

abbrev pub stage_refused : String → Error → Error
stage_refused exo_id e =
    status invalid_argument "volume %s capability not supported" (text_arg exo_id no_args)

abbrev pub unstage_check_failed : Error → Error
unstage_check_failed e =
    status internal_error "error checking if target is mounted: %s" (error_arg e no_args)

abbrev pub unmount_failed : Error → Error
unmount_failed e = status internal_error "error unmounting target path: %s" (error_arg e no_args)

-- A device that is not there counts as unstaged; a staging path that is not there does not.
unfoldable pub unstage_without_device : {W : Type 0} → String → Error → Action W (Unit {0})
unstage_without_device volume_id e =
    if is_not_exist e
    then pure tt
    else fail (
        status internal_error "error getting device path for volume %s: %s"
          (text_arg volume_id (error_arg e no_args)))

unfoldable pub unstage_without_path : {W : Type 0} → String → Error → Action W (Unit {0})
unstage_without_path volume_id e =
    if is_not_exist e
    then fail (status not_found "volume %s not found on node" (text_arg volume_id no_args))
    else pure tt

module _ (O : Os) where
  -- The answer for a path on which the volume is mounted already.
  unfoldable pub already_staged : String → String → Action O.State (Unit {0})
  unfolding is_block_device
  already_staged staging_target_path volume_id = do
    block_device ← or_else (is_block_device O staging_target_path) (stat_failed staging_target_path)
    (if block_device
        then fail (
            status unknown "block device mounted as stagingTargetPath %s for volume %s"
              (text_arg staging_target_path (text_arg volume_id no_args)))
        else pure tt)

  unfoldable pub stage_mount : String → String → AccessType → Action O.State (Unit {0})
  unfolding format_and_mount
  stage_mount staging_target_path device_path (mount m) =
      or_else (format_and_mount O staging_target_path device_path m.fs_type m.mount_flags)
        (format_failed staging_target_path device_path m)
  stage_mount staging_target_path device_path _ =
      fail (status invalid_argument "mount volume capability is nil" no_args)

  unfoldable pub stage_unless_mounted :
      String → String → String → AccessType → Action O.State (Unit {0})
  unfolding is_shared_mounted already_staged stage_mount
  stage_unless_mounted staging_target_path volume_id device_path access_type = do
    is_mounted ←
        or_else (is_shared_mounted O staging_target_path device_path)
          (staging_check_failed volume_id staging_target_path)
    (if is_mounted
        then already_staged staging_target_path volume_id
        else stage_mount staging_target_path device_path access_type)

  -- The rest of NodeStageVolume, once the device is known. A block volume is not mounted.
  unfoldable pub stage_device : String → String → String → AccessType → Action O.State (Unit {0})
  unfolding stage_unless_mounted
  stage_device staging_target_path volume_id device_path block = pure tt
  stage_device staging_target_path volume_id device_path access_type =
      stage_unless_mounted staging_target_path volume_id device_path access_type

  unfoldable pub stage_device_path : String → Action O.State String
  unfolding get_device_path
  stage_device_path volume_id = or_else (get_device_path O volume_id) λ e.
      if is_not_exist e
      then status not_found "volume %s is not mounted on node" (text_arg volume_id no_args)
      else status internal_error "get device path for volume %s: %s"
          (text_arg volume_id (error_arg e no_args))

  -- The rest of NodeUnstageVolume, once the device is found. An error of os.Stat other than
  -- "not exist" is passed over.
  unfoldable pub unstage_path : String → String → Action O.State (Unit {0})
  unfolding is_shared_mounted unmount unstage_without_path
  unstage_path staging_target_path volume_id = do
    handle (O.stat staging_target_path) (unstage_without_path volume_id) (λ _. pure tt)
    is_mounted ← or_else (is_shared_mounted O staging_target_path "") unstage_check_failed
    (if is_mounted then or_else (unmount O staging_target_path) unmount_failed else pure tt)

  module _ (parse_uuid : String → Result String) where
    unfoldable pub node_stage_volume : StageRequest → Action O.State (Unit {0})
    unfolding required_capability stage_device_path stage_device
    node_stage_volume req = do
      require_path invalid_argument "stagingTargetPath not provided" req.staging_target_path
      c ← lift (
          required_capability "volumeCapability not provided" (stage_refused req.volume_id)
            req.volume_capability)
      (_, volume_id) ← lift (get_exoscale_id parse_uuid req.volume_id)
      device_path ← stage_device_path volume_id
      stage_device req.staging_target_path volume_id device_path c.access_type

    unfoldable pub node_unstage_volume : UnstageRequest → Action O.State (Unit {0})
    unfolding get_device_path unstage_without_device unstage_path
    node_unstage_volume req = do
      (_, volume_id) ← lift (get_exoscale_id parse_uuid req.volume_id)
      require_path invalid_argument "stagingTargetPath not provided" req.staging_target_path
      handle (get_device_path O volume_id) (unstage_without_device volume_id)
          (λ _. unstage_path req.staging_target_path volume_id)
