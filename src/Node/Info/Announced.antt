-- ===== src/Node/Info/Announced.antt =====
-- What NodeGetInfo announces of the node, as the controller reads it.
use exoscale_csi_driver.Base.{
  String, ◌≡◌, refl, subst, inr, false, Option, some, [], ◌∷◌, has_char, ok-injective, Result, ok,
}
use exoscale_csi_driver.Csi.{Topology}
use exoscale_csi_driver.Helpers.{get_exoscale_id, new_zone_topology, get_required_zone}
use exoscale_csi_driver.Helpers.ExoscaleId.{get_exoscale_id-exoscale_id}
use exoscale_csi_driver.Helpers.Zone.{get_required_zone_iff}
use exoscale_csi_driver.Node.{NodeService}
use exoscale_csi_driver.Node.Info.{NodeInfo, node_get_info, first_topology}

-- The topology asks CreateVolume for the zone, for a controller in the other zone.
abbrev pub LeadsToZone : String → String → Option Topology → Type 0
LeadsToZone zone other topology =
    (t : Topology) × (topology ≡ some t)
    × (get_required_zone (some (record { requisite = some (t ∷ []) })) other ≡ ok zone)

-- When neither the zone nor the instance ID holds a slash and the ID is in the form in which the
-- parser returns it: the node ID that NodeGetInfo announces is read by the controller as the node's
-- zone and instance, and a requirement with just the announced topology leads to the node's zone,
-- whatever zone the controller is in.
pub node_get_info-announces :
    (parse_uuid : String → Result String) (d : NodeService) (other : String) {info : NodeInfo}
    → has_char b'/' d.zone_name ≡ false
    → has_char b'/' d.node_id ≡ false
    → parse_uuid d.node_id ≡ ok d.node_id
    → node_get_info d ≡ ok info
    → (get_exoscale_id parse_uuid info.node_id ≡ ok (d.zone_name, d.node_id))
      × LeadsToZone d.zone_name other info.accessible_topology
unfolding node_get_info first_topology new_zone_topology
node_get_info-announces parse_uuid d other {info} zone id parsed h =
    let e = ok-injective h in
    (
      subst (λ (i : NodeInfo). get_exoscale_id parse_uuid i.node_id ≡ ok (d.zone_name, d.node_id)) e
          (get_exoscale_id-exoscale_id parse_uuid d.zone_name d.node_id zone id parsed),
      subst (λ (i : NodeInfo). LeadsToZone d.zone_name other i.accessible_topology) e
          (
            record { segments = ("topology.csi.exoscale.com/zone", d.zone_name) ∷ [] },
            refl,
            (get_required_zone_iff _ other d.zone_name).1 (inr (inr refl)),
          ),
    )
