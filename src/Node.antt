-- ===== src/Node.antt =====
-- driver/node.go: the node service. It keeps the ID and the zone of its instance, which do not
-- change after `newNodeService`; the mounts are the system's.
pub mod Devices
pub mod Staging
pub mod Publishing
pub mod Info
use exoscale_csi_driver.Base.{
  String, str_eq, no_args, Code, status, Action, pure, fail, if◌then◌else◌,
}

pub record NodeService : Type 0 where
  pub node_id : String
  pub zone_name : String

-- `if path == "" { return nil, status.Error(code, message) }`
abbrev pub require_path : {W : Type 0} → Code → String → String → Action W (Unit {0})
require_path code message path =
    if str_eq path "" then fail (status code message no_args) else pure tt
