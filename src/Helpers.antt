-- ===== src/Helpers.antt =====
-- driver/helpers.go (except createMountPoint, in Node) and driver/errors.go.
pub mod ExoscaleId
pub mod Zone
pub mod VolumeSize
pub mod Gib
use exoscale_csi_driver.Base.{
  ℕ, ◌==◌, ℤ, pos, ◌*ℤ◌, ltb_ℤ, eqb_ℤ, div_ℤ, wrap64, not, ◌&&◌, String, ◌<>◌, str_eq, split,
  Option, none, some, List, [], ◌∷◌, length, any, if◌then◌else◌, Error, errorf, no_args, text_arg,
  Result, ok, err, and_then,
}
use exoscale_csi_driver.Csi.{
  AccessMode, unknown_mode, single_node_writer, single_node_multi_writer, VolumeCapability,
  CapacityRange, Topology, TopologyRequirement,
}

abbrev pub gib : ℕ
gib = 1073741824

abbrev pub driver_name : String
driver_name = "csi.exoscale.com"

abbrev pub zone_topology_key : String
zone_topology_key = "topology.csi.exoscale.com/zone"

abbrev pub minimal_volume_size_gib : ℤ
minimal_volume_size_gib = pos 1

abbrev pub maximum_volume_size_gib : ℤ
maximum_volume_size_gib = pos 10000

abbrev pub supported_access_modes : List AccessMode
supported_access_modes = single_node_writer ∷ single_node_multi_writer ∷ []

unfoldable pub exoscale_id : String → String → String
exoscale_id zone_name id = zone_name <> ("/" <> id)

unfoldable pub new_zone_topology : String → List Topology
new_zone_topology zone_name = record { segments = (zone_topology_key, zone_name) ∷ [] } ∷ []

-- `GetAccessMode().GetMode()`
abbrev pub get_mode : VolumeCapability → AccessMode
get_mode c = elim c.access_mode [ none ↦ unknown_mode | some m ↦ m ]

-- The test `mount && block` after the loop never holds of a oneof, so the panic under it is left
-- out.
unfoldable pub validate_volume_capability : Option VolumeCapability → Result (Unit {0})
unfolding any
validate_volume_capability none = err (errorf "volumeCapability is nil" no_args)
validate_volume_capability (some c) =
    if any (λ m. m == get_mode c) supported_access_modes
    then ok tt
    else err (errorf "access mode not supported" no_args)

unfoldable pub convert_bytes_to_gib : ℤ → ℤ
convert_bytes_to_gib size_in_bytes = div_ℤ size_in_bytes gib

unfoldable pub convert_gib_to_bytes : ℤ → ℤ
convert_gib_to_bytes size_in_gib = wrap64 (size_in_gib *ℤ gib)

-- `zone, ok := required.Segments[key]`
unfoldable pub segment : String → List (String × String) → Option String
segment key [] = none
segment key ((k, v) ∷ segments) = if str_eq k key then some v else segment key segments

only_segment : Topology → Result String
unfolding segment
only_segment required =
    if not (length required.segments == 1)
    then err (errorf "topology requisite segments must always be equal to one zone" no_args)
    else elim (segment zone_topology_key required.segments) [
      | none ↦ err (errorf "zone topology key %s not found" (text_arg zone_topology_key no_args))
      | some zone ↦ ok zone
    ]

only_zone : List Topology → Result String
unfolding only_segment
only_zone (required ∷ []) = only_segment required
only_zone _ = err (errorf "topology requisite must always be equal to one zone" no_args)

unfoldable pub get_required_zone : Option TopologyRequirement → String → Result String
unfolding only_zone
get_required_zone none default_zone = ok default_zone
get_required_zone (some r) default_zone = elim r.requisite [
  | none ↦ ok default_zone
  | some requisite ↦ only_zone requisite
]

abbrev pub err_limit_less_than_required_bytes : Error
err_limit_less_than_required_bytes = errorf "limit size is less than required size" no_args

abbrev pub err_required_bytes_less_than_minimun : Error
err_required_bytes_less_than_minimun = errorf "required size is less than the minimun size" no_args

abbrev pub err_limit_less_than_minimum : Error
err_limit_less_than_minimum = errorf "limit size is less than the minimun size" no_args

abbrev pub err_required_bytes_greater_than_maximun : Error
err_required_bytes_greater_than_maximun =
    errorf "required size is greater than the maximum size" no_args

abbrev pub err_limit_greater_than_maximum : Error
err_limit_greater_than_maximum = errorf "limit size is greater than the maximum size" no_args

unfoldable pub new_volume_size_in : CapacityRange → Result ℤ
unfolding convert_gib_to_bytes
new_volume_size_in capacity_range =
    let minimal = convert_gib_to_bytes minimal_volume_size_gib in
    let maximum = convert_gib_to_bytes maximum_volume_size_gib in
    let required = capacity_range.required_bytes in
    let required_set = ltb_ℤ (pos 0) required in
    let limit = capacity_range.limit_bytes in
    let limit_set = ltb_ℤ (pos 0) limit in
    if not required_set && not limit_set
    then ok minimal
    else if required_set && limit_set && ltb_ℤ limit required
    then err err_limit_less_than_required_bytes
    else if required_set && not limit_set && ltb_ℤ required minimal
    then err err_required_bytes_less_than_minimun
    else if limit_set && ltb_ℤ limit minimal
    then err err_limit_less_than_minimum
    else if required_set && ltb_ℤ maximum required
    then err err_required_bytes_greater_than_maximun
    else if not required_set && limit_set && ltb_ℤ maximum limit
    then err err_limit_greater_than_maximum
    else if required_set && limit_set && eqb_ℤ required limit
    then ok required
    else if required_set
    then ok required
    else if limit_set
    then ok limit
    else ok minimal

unfoldable pub get_new_volume_size : Option CapacityRange → Result ℤ
unfolding new_volume_size_in
get_new_volume_size none = ok (convert_gib_to_bytes minimal_volume_size_gib)
get_new_volume_size (some capacity_range) = new_volume_size_in capacity_range

-- `v3.ParseUUID` stands in github.com/exoscale/egoscale/v3: a parameter.
module _ (parse_uuid : String → Result String) where
  unfoldable pub id_of_parts : List String → Result (String × String)
  id_of_parts (zone ∷ id ∷ []) = and_then (parse_uuid id) (λ u. ok (zone, u))
  id_of_parts _ = err (errorf "malformed exoscale id" no_args)

  unfoldable pub get_exoscale_id : String → Result (String × String)
  unfolding id_of_parts
  get_exoscale_id exo_id = id_of_parts (split b'/' exo_id)
