-- ===== src/Disk/Utils.antt =====
-- The methods of diskUtils.
pub mod Shared
use Prim.Native.String.{len, slice}
use exoscale_csi_driver.Base.{
  ℕ, leb, Bool, true, false, not, ◌&&◌, ◌||◌, String, ◌<>◌, str_eq, split, any, Option, none, some,
  List, [], ◌∷◌, if◌then◌else◌, errorf, wrap, no_args, text_arg, slice_out_of_range,
  nil_dereference, Result, ok, err, panic, Action, pure, fail, lift, or_else, ◌>>=◌,
}
use exoscale_csi_driver.Os.{Os, FileMode, Statfs}
use exoscale_csi_driver.Disk.Paths.{join_path}
use exoscale_csi_driver.Disk.MountInfo.{MountInfo, parse_mount_info}

abbrev pub dev_disk_by_id : String
dev_disk_by_id = "/dev/disk/by-id"

abbrev pub dev_disk_prefix : String
dev_disk_prefix = "virtio-"

abbrev pub dev_disk_id_length : ℕ
dev_disk_id_length = 20

abbrev pub default_fs_type : String
default_fs_type = "ext4"

abbrev pub proc_mount_info_max_list_tries : ℕ
proc_mount_info_max_list_tries = 3

abbrev pub proc_mount_info_path : String
proc_mount_info_path = "/proc/self/mountinfo"

-- `volumeID.String()[:devDiskIDLength]`, by bytes.
unfoldable pub dev_disk_id : String → Result String
dev_disk_id volume_id =
    if leb dev_disk_id_length (len volume_id)
    then ok (slice volume_id 0 dev_disk_id_length)
    else panic slice_out_of_range

-- A device that is not a character device.
unfoldable pub is_block_mode : FileMode → Bool
is_block_mode m = not (not m.device || m.char_device)

-- `strings.Split(optionalField, ":")[0] == "shared"`
abbrev first_is_shared : List String → Bool
first_is_shared [] = false
first_is_shared (tag ∷ _) = str_eq tag "shared"

unfoldable pub is_shared_field : String → Bool
unfolding split
is_shared_field optional_field = first_is_shared (split b':' optional_field)

-- The tests on the entry of the target.
unfoldable pub check_shared : String → Option MountInfo → Result Bool
unfolding is_shared_field any
check_shared device_path none = ok false
check_shared device_path (some info) =
    if not (any is_shared_field info.optional_fields)
    then err (errorf "target not shared mounter" no_args)
    else if not (str_eq device_path "") && not (str_eq info.source device_path)
    then err (errorf "target not mounter on right device" no_args)
    else ok true

abbrev pub with_default_type : String → String
with_default_type fs_type = if str_eq fs_type "" then default_fs_type else fs_type

module _ (O : Os) where
  unfoldable pub get_mount_info : String → Action O.State (Option MountInfo)
  unfolding parse_mount_info
  get_mount_info target_path = do
    content ← O.consistent_read proc_mount_info_path proc_mount_info_max_list_tries
    lift (parse_mount_info target_path content)

  unfoldable pub get_device_path : String → Action O.State String
  unfolding dev_disk_id join_path is_block_mode
  get_device_path volume_id = do
    id ← lift (dev_disk_id volume_id)
    let device_path = join_path dev_disk_by_id (dev_disk_prefix <> id)
    real_device_path ← O.eval_symlinks device_path
    device_mode ← O.stat real_device_path
    (if is_block_mode device_mode
        then pure device_path
        else fail (errorf "device path is not device" no_args))

  unfoldable pub format_and_mount :
      String → String → String → List String → Action O.State (Unit {0})
  format_and_mount target_path device_path fs_type mount_options =
      or_else (O.format_and_mount device_path target_path (with_default_type fs_type) mount_options)
        (wrap "failed to optionnaly format and mount: %w")

  unfoldable pub is_shared_mounted : String → String → Action O.State Bool
  unfolding get_mount_info check_shared
  is_shared_mounted target_path device_path =
      if str_eq target_path ""
      then fail (errorf "target path empty" no_args)
      else do mount_info ← get_mount_info target_path; lift (check_shared device_path mount_info)

  unfoldable pub is_block_device : String → Action O.State Bool
  unfolding is_block_mode
  is_block_device path = do
    real_path ← O.eval_symlinks path
    device_mode ← O.stat real_path
    pure (is_block_mode device_mode)

  unfoldable pub mount_to_target :
      String → String → String → List String → Action O.State (Unit {0})
  mount_to_target source_path target_path fs_type mount_options =
      O.mount source_path target_path (with_default_type fs_type) mount_options

  unfoldable pub unmount : String → Action O.State (Unit {0})
  unmount target = O.cleanup_mount_point target true

  unfoldable pub get_statfs : String → Action O.State Statfs
  get_statfs path = O.statfs path

  unfoldable pub run_tool : String → List String → Action O.State (Unit {0})
  run_tool name args = do path ← O.look_path name; O.run path args

  -- The tool that grows a file system of the type.
  unfoldable pub resize_type : String → String → String → Action O.State (Unit {0})
  unfolding run_tool
  resize_type target_path device_path fs_type =
      if str_eq fs_type "ext3" || str_eq fs_type "ext4"
      then run_tool "resize2fs" (device_path ∷ [])
      else if str_eq fs_type "xfs"
      then run_tool "xfs_growfs" ("-d" ∷ target_path ∷ [])
      else if str_eq fs_type "btrfs"
      then run_tool "btrfs" ("filesystem" ∷ "resize" ∷ "-max" ∷ target_path ∷ [])
      else fail (errorf "filesystem %s does not support resizing" (text_arg fs_type no_args))

  -- `mountInfo` is nil when nothing is mounted at the path, and its type is read through nil.
  unfoldable pub resize_mounted : String → String → Option MountInfo → Action O.State (Unit {0})
  resize_mounted target_path device_path none = lift (panic nil_dereference)
  resize_mounted target_path device_path (some info) =
      resize_type target_path device_path info.fs_type

  unfoldable pub resize : String → String → Action O.State (Unit {0})
  unfolding get_mount_info resize_mounted resize_type
  resize target_path device_path = do
    mount_info ← get_mount_info target_path
    resize_mounted target_path device_path mount_info
