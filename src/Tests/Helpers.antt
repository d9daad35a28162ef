-- ===== src/Tests/Helpers.antt =====
-- The helpers.
use exoscale_csi_driver.Base.{
  String, ◌≡◌, ◌↔◌, ◌⊎◌, false, Option, none, some, has_char, Result, pos, ok,
}
use exoscale_csi_driver.Csi.{CapacityRange, TopologyRequirement}
use exoscale_csi_driver.Helpers.{
  exoscale_id, get_exoscale_id, new_zone_topology, get_required_zone, get_new_volume_size,
}
use exoscale_csi_driver.Helpers.ExoscaleId.{get_exoscale_id_iff}
use exoscale_csi_driver.Helpers.VolumeSize.{Accepts, chosen_size, new_volume_size_iff}
use exoscale_csi_driver.Helpers.Zone.{get_required_zone_iff}

get_exoscale_id_iff_example : (get_exoscale_id ok "ch-gva-2/7" ≡ ok ("ch-gva-2", "7")) ↔ (
    (raw : String) × ("ch-gva-2/7" ≡ exoscale_id "ch-gva-2" raw)
    × (◌≡◌ {A = Result String} (ok raw) (ok "7"))
    × (has_char b'/' "ch-gva-2" ≡ false)
    × (has_char b'/' raw ≡ false))
get_exoscale_id_iff_example = get_exoscale_id_iff ok "ch-gva-2/7" "ch-gva-2" "7"

abbrev range : CapacityRange
range = record { required_bytes = pos 0; limit_bytes = pos 5368709120 }

new_volume_size_iff_example :
    (get_new_volume_size (some range) ≡ ok (pos 5368709120))
    ↔ (Accepts range × (pos 5368709120 ≡ chosen_size range))
new_volume_size_iff_example = new_volume_size_iff range (pos 5368709120)

abbrev frankfurt : String
frankfurt = "de-fra-1"

abbrev geneva : String
geneva = "ch-gva-2"

abbrev geneva_only : Option TopologyRequirement
geneva_only = some (record { requisite = some (new_zone_topology geneva) })

get_required_zone_iff_example : (get_required_zone geneva_only frankfurt ≡ ok geneva) ↔ (
    ((geneva_only ≡ none) × (geneva ≡ frankfurt))
    ⊎ ((geneva_only ≡ some (record { requisite = none })) × (geneva ≡ frankfurt))
    ⊎ (geneva_only ≡ some (record { requisite = some (new_zone_topology geneva) })))
get_required_zone_iff_example = get_required_zone_iff geneva_only frankfurt geneva
