-- ===== src/Controller.antt =====
-- driver/controller.go: the controller service. Its state is the client's endpoint and the zone of
-- the node that it runs on; neither changes after `newControllerService`.
use exoscale_csi_driver.Base.{String, Action, or_else, wrap}
use exoscale_csi_driver.Api.{Api}
pub mod Volumes
pub mod Attachment
pub mod Queries
pub mod Listing
pub mod Snapshots
pub mod Expand
pub mod Lifecycle

pub record ControllerService : Type 0 where
  pub client : String
  pub zone_name : String

unfoldable pub new_client_zone : (A : Api) → String → String → Action A.State String
new_client_zone A c z = or_else (A.get_zone_api_endpoint c z) (wrap "get zone api endpoint: %w")
