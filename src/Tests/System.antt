-- ===== src/Tests/System.antt =====
-- A system in memory, whose state is the text of /proc/self/mountinfo, and a volume on it.
use exoscale_csi_driver.Base.{
  String, ◌<>◌, false, some, [], contains, pure, fail, pos, os_not_exist, foreign, ok,
}
use exoscale_csi_driver.Csi.{mount, VolumeCapability, single_node_writer}
use exoscale_csi_driver.Os.{Os}

-- Devices lie under /dev, and a mount adds a line.
abbrev pub system : Os
system = record {
  State = String;
  consistent_read = λ path attempts w. (ok w, w);
  eval_symlinks = pure;
  stat = λ path. pure (record { device = contains path "/dev/"; char_device = false });
  statfs = λ path. fail (foreign os_not_exist "no such file or directory");
  mkdir_all = λ path perm. pure tt;
  create_file = λ path perm. pure (pos 3);
  close_file = λ f. pure tt;
  openat = λ path. pure (pos 3);
  close = λ fd. pure tt;
  blkroget = λ fd. pure (pos 0);
  blkroset = λ fd value. pure tt;
  look_path = pure;
  run = λ path args. pure tt;
  format_and_mount = λ source target fs_type options. pure tt;
  mount = λ source target fs_type options w.
      (ok tt, "40 30 253:1 / " <> (target <> (" rw shared:1 - ext4 " <> (source <> " rw"))));
  cleanup_mount_point = λ target check. pure tt;
}

abbrev pub uuid : String
uuid = "01234567-89ab-cdef-0123-456789abcdef"

abbrev pub device : String
device = "/dev/disk/by-id/virtio-01234567-89ab-cdef-0"

abbrev pub capability : VolumeCapability
capability = record {
  access_mode = some single_node_writer;
  access_type = mount (record { fs_type = "ext4"; mount_flags = [] });
}
