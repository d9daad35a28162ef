-- ===== src/Os.antt =====
-- The node's system as the driver sees it: the files, devices and mounts under os, path/filepath,
-- os/exec and golang.org/x/sys/unix, and the mounter of k8s.io/mount-utils (vendor/), over an
-- unknown state. Each call may change the state.
pub mod Laws
use exoscale_csi_driver.Base.{ℕ, ℤ, Bool, String, List, Action}

-- The bits os.ModeDevice and os.ModeCharDevice of a file's mode.
pub record FileMode : Type 0 where
  pub device : Bool
  pub char_device : Bool

-- unix.Statfs_t: all but the block size are uint64.
pub record Statfs : Type 0 where
  pub blocks : ℕ
  pub bfree : ℕ
  pub files : ℕ
  pub ffree : ℕ
  pub bsize : ℤ

pub record Os : Type 1 where
  pub State : Type 0
  -- kio.ConsistentRead(path, attempts)
  pub consistent_read : String → ℕ → Action State String
  pub eval_symlinks : String → Action State String
  pub stat : String → Action State FileMode
  pub statfs : String → Action State Statfs
  pub mkdir_all : String → ℕ → Action State (Unit {0})
  -- os.OpenFile(path, os.O_CREATE, perm), and Close of the file
  pub create_file : String → ℕ → Action State ℤ
  pub close_file : ℤ → Action State (Unit {0})
  -- unix.Openat(unix.AT_FDCWD, path, unix.O_RDONLY, 0), and unix.Close
  pub openat : String → Action State ℤ
  pub close : ℤ → Action State (Unit {0})
  -- unix.IoctlGetInt(fd, unix.BLKROGET), and unix.IoctlSetPointerInt(fd, unix.BLKROSET, value)
  pub blkroget : ℤ → Action State ℤ
  pub blkroset : ℤ → ℤ → Action State (Unit {0})
  pub look_path : String → Action State String
  -- exec.Command(path, args...).Run()
  pub run : String → List String → Action State (Unit {0})
  -- SafeFormatAndMount: FormatAndMount and Mount (source, target, fstype, options), and
  -- kmount.CleanupMountPoint(target, mounter, extensiveMountPointCheck)
  pub format_and_mount : String → String → String → List String → Action State (Unit {0})
  pub mount : String → String → String → List String → Action State (Unit {0})
  pub cleanup_mount_point : String → Bool → Action State (Unit {0})
