-- ===== src/Helpers/Zone.antt =====
-- Which topology requirements `getRequiredZone` accepts.
use exoscale_csi_driver.Base.{
  ◌≡◌, refl, ◌⊎◌, inr, ◌↔◌, arith, some, none, String, str_eq_iff, List, [], ◌∷◌, Option, ok, ap,
}
use exoscale_csi_driver.Csi.{Topology, TopologyRequirement}
use exoscale_csi_driver.Helpers.{
  zone_topology_key, get_required_zone, only_zone, only_segment, new_zone_topology,
}

-- The requirement names a zone: it has one topology with one segment, under the driver's key.
abbrev pub Names : List Topology → String → Type 0
Names requisite zone = requisite ≡ new_zone_topology zone

only_segment-eq_ok :
    (segments : List (String × String)) (zone : String)
    → only_segment (record { segments = segments }) ≡ ok zone
    → segments ≡ (zone_topology_key, zone) ∷ []
unfolding only_segment
only_segment-eq_ok [] zone h = cc
only_segment-eq_ok ((k, v) ∷ []) zone h = ground (arith, str_eq_iff k zone_topology_key)
only_segment-eq_ok (_ ∷ _ ∷ r) zone h = ground arith

only_zone-eq_ok :
    (requisite : List Topology) (zone : String)
    → only_zone requisite ≡ ok zone
    → Names requisite zone
unfolding only_zone new_zone_topology
only_zone-eq_ok [] zone h = cc
only_zone-eq_ok (t ∷ []) zone h =
    ap (λ s. record { segments = s } ∷ []) (only_segment-eq_ok t.segments zone h)
only_zone-eq_ok (_ ∷ _ ∷ r) zone h = cc

only_zone-new_zone_topology : (zone : String) → only_zone (new_zone_topology zone) ≡ ok zone
unfolding only_zone new_zone_topology
only_zone-new_zone_topology zone = refl

zone_of_requisite_iff :
    (requisite : Option (List Topology)) (default zone : String)
    → let r : Option TopologyRequirement = some (record { requisite = requisite }) in
      (get_required_zone r default ≡ ok zone) ↔ (
        (r ≡ none) × (zone ≡ default)
        ⊎ (r ≡ some (record { requisite = none })) × (zone ≡ default)
        ⊎ r ≡ some (record { requisite = some (new_zone_topology zone) }))
unfolding get_required_zone
zone_of_requisite_iff none default zone = (λ e. ground arith, λ e. ground arith)
zone_of_requisite_iff (some l) default zone = (
  λ e. inr (inr (ap (λ k. some (record { requisite = some k })) (only_zone-eq_ok l zone e))),
  λ e. ground (arith, only_zone-new_zone_topology zone),
)

-- With no requirement, or one that gives no requisite topologies, the zone is the driver's own.
-- Otherwise a zone is returned exactly if the requisite topologies are the list that the driver
-- itself announces for that zone (`newZoneTopology`).
pub get_required_zone_iff :
    (requirements : Option TopologyRequirement) (default zone : String)
    → (get_required_zone requirements default ≡ ok zone) ↔ (
        ((requirements ≡ none) × (zone ≡ default))
        ⊎ ((requirements ≡ some (record { requisite = none })) × (zone ≡ default))
        ⊎ (requirements ≡ some (record { requisite = some (new_zone_topology zone) })))
unfolding get_required_zone
get_required_zone_iff none default zone = (λ e. ground arith, ground arith)
get_required_zone_iff (some r) default zone = zone_of_requisite_iff r.requisite default zone
