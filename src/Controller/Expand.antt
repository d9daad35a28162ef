-- ===== src/Controller/Expand.antt =====
-- ControllerExpandVolume.
pub mod Bounds
use exoscale_csi_driver.Base.{
  ℤ, pos, eqb_ℤ, mod_ℤ, Bool, true, false, not, String, Option, none, some, if◌then◌else◌,
  invalid_argument, out_of_range, status, errorf, no_args, number_arg, error_arg, Error, Result, ok,
  err, panic, Action, pure, lift, or_else, ◌>>=◌, ◌>>◌,
}
use exoscale_csi_driver.Csi.{AccessType, block, VolumeCapability, CapacityRange}
use exoscale_csi_driver.Helpers.{
  gib, get_exoscale_id, validate_volume_capability, get_new_volume_size, convert_bytes_to_gib,
}
use exoscale_csi_driver.Api.{Api}
use exoscale_csi_driver.Controller.{ControllerService, new_client_zone}
use exoscale_csi_driver.Controller.Attachment.{volume_not_found}

pub record ExpandRequest : Type 0 where
  pub volume_id : String
  pub capacity_range : Option CapacityRange
  pub volume_capability : Option VolumeCapability

pub record ExpandResponse : Type 0 where
  pub capacity_bytes : ℤ
  pub node_expansion_required : Bool

abbrev pub is_block_type : AccessType → Bool
is_block_type block = true
is_block_type _ = false

-- Another error in place of that of a computation without effects.
abbrev pub map_error : {A : Type 0} → (Error → Error) → Result A → Result A
map_error f (ok a) = ok a
map_error f (err e) = err (f e)
map_error f (panic p) = panic p

abbrev pub invalid_range : Error → Error
invalid_range e = status out_of_range "invalid capacity range: %v" (error_arg e no_args)

-- `nodeExpansionRequired`: a block volume needs no work on the node.
unfoldable pub node_expansion : Option VolumeCapability → Result Bool
unfolding validate_volume_capability
node_expansion none = ok true
node_expansion (some c) = elim (validate_volume_capability (some c)) [
  | ok _ ↦ ok (not (is_block_type c.access_type))
  | err e ↦
      err (status invalid_argument "volumeCapabilities not supported: %s" (error_arg e no_args))
  | panic p ↦ panic p
]

unfoldable pub whole_gib : ℤ → Result ℤ
unfolding convert_bytes_to_gib
whole_gib new_size_in_bytes =
    if not (eqb_ℤ (mod_ℤ new_size_in_bytes gib) (pos 0))
    then err (
        errorf "requested size in bytes cannot be exactly converted to GiB: %d"
          (number_arg new_size_in_bytes no_args))
    else ok (convert_bytes_to_gib new_size_in_bytes)

-- The operation that the resize starts is not waited for.
unfoldable pub controller_expand_volume :
    (A : Api) → ControllerService → ExpandRequest → Action A.State ExpandResponse
unfolding new_client_zone volume_not_found node_expansion get_new_volume_size whole_gib
controller_expand_volume A d req = do
  (zone_name, volume_id) ← lift (get_exoscale_id A.parse_uuid req.volume_id)
  client ← new_client_zone A d.client zone_name
  or_else (A.get_block_storage_volume client volume_id) (volume_not_found volume_id)
  node_expansion_required ← lift (node_expansion req.volume_capability)
  new_size_in_bytes ← lift (map_error invalid_range (get_new_volume_size req.capacity_range))
  size_in_gib ← lift (whole_gib new_size_in_bytes)
  A.resize_block_storage_volume client volume_id size_in_gib
  pure (record {
    capacity_bytes = new_size_in_bytes;
    node_expansion_required = node_expansion_required;
  })
