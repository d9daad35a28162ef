-- ===== src/Identity.antt =====
-- driver/identity.go: the identity service. The version is set at build time.
use exoscale_csi_driver.Base.{Bool, true, String, List, [], ◌∷◌, Result, ok}
use exoscale_csi_driver.Helpers.{driver_name}

pub record PluginInfo : Type 0 where
  pub name : String
  pub vendor_version : String

pub data PluginCapability : Type 0 where
  controller_service volume_accessibility_constraints online_expansion : PluginCapability

unfoldable pub get_plugin_info : String → Result PluginInfo
get_plugin_info version = ok (record { name = driver_name; vendor_version = version })

unfoldable pub get_plugin_capabilities : Result (List PluginCapability)
get_plugin_capabilities =
    ok (controller_service ∷ volume_accessibility_constraints ∷ online_expansion ∷ [])

unfoldable pub probe : Result Bool
probe = ok true
