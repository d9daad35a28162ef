-- ===== src/Disk.antt =====
-- driver/diskutils.go: MountInfo has the parser of /proc/self/mountinfo, Paths the functions of
-- path and path/filepath that it uses, Utils the methods of diskUtils.
pub mod Paths
pub mod MountInfo
pub mod Utils
