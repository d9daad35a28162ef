-- ===== src/Api/Memory.antt =====
-- A service in memory that behaves as Laws says: it shows that the laws can be met, and it runs in
-- tests. It has one zone, in which every endpoint lies.
pub mod Laws
pub mod Names
pub mod Snapshots
use exoscale_csi_driver.Base.{
  ℕ, zero, suc, String, not, Option, none, some, List, [], ◌∷◌, ◌++◌, str_eq, if◌then◌else◌, find?,
  Error, Action, pure, fail, proceed, pos, api_not_found, other_cause, foreign, ok, err,
}
use mathlib.Core.List.{append-nil}
use exoscale_csi_driver.Base.Decimal.{itoa}
use exoscale_csi_driver.Api.{
  Api, Zone, BlockStorageVolume, BlockStorageSnapshot, Operation, CreateRequest,
}
use exoscale_csi_driver.Api.Laws.{by_id, Found, Adds, Service, IsOff, says_detached}

pub record Memory : Type 0 where
  pub next : ℕ
  pub volumes : List BlockStorageVolume
  pub snapshots : List BlockStorageSnapshot

abbrev pub missing : Error
missing = foreign api_not_found "Not Found"

abbrev pub on_instance : Option String → BlockStorageVolume → BlockStorageVolume
on_instance i v = record v { instance_id = i }

unfoldable pub update : String → Option String → List BlockStorageVolume → List BlockStorageVolume
update id i [] = []
update id i (v ∷ vs) = (if str_eq v.id id then on_instance i v else v) ∷ update id i vs

unfoldable pub remove : String → List BlockStorageVolume → List BlockStorageVolume
remove id [] = []
remove id (v ∷ vs) = let rest = remove id vs in if str_eq v.id id then rest else v ∷ rest

unfoldable pub done : String → Operation
done id = record { id = "op"; reference = some id }

unfoldable pub found : {W T : Type 0} → Option T → Action W T
found none = fail missing
found (some t) = pure t

unfoldable pub add : CreateRequest → Action Memory Operation
unfolding done
add req w = (
  ok (done (itoa (pos w.next))),
  record w {
    next = suc w.next;
    volumes =
        w.volumes
        ++ record {
          id = itoa (pos w.next);
          name = req.name;
          size = req.size;
          instance_id = none;
          block_storage_snapshots = [];
        }
          ∷ [];
  },
)

unfoldable pub drop_volume : String → Option BlockStorageVolume → Action Memory Operation
unfolding remove done
drop_volume id none w = (err missing, w)
drop_volume id (some _) w = (ok (done id), record w { volumes = remove id w.volumes })

unfoldable pub attach_volume : String → String → Option BlockStorageVolume → Action Memory Operation
unfolding update done
attach_volume id instance none w = (err missing, w)
attach_volume id instance (some _) w =
    (ok (done id), record w { volumes = update id (some instance) w.volumes })

unfoldable pub detach_from : String → Option String → Action Memory Operation
unfolding update done
detach_from id none w = (err (foreign other_cause "Volume not attached"), w)
detach_from id (some _) w = (ok (done id), record w { volumes = update id none w.volumes })

unfoldable pub detach_volume : String → Option BlockStorageVolume → Action Memory Operation
unfolding detach_from
detach_volume id none w = (err missing, w)
detach_volume id (some v) w = detach_from id v.instance_id w

-- The ID of a snapshot goes to the front of those of its volume.
unfoldable pub add_to : String → String → List BlockStorageVolume → List BlockStorageVolume
add_to id snapshot [] = []
add_to id snapshot (v ∷ vs) =
    (if str_eq v.id id
      then record v { block_storage_snapshots = snapshot ∷ v.block_storage_snapshots }
      else v)
    ∷ add_to id snapshot vs

abbrev pub new_snapshot : String → String → String → BlockStorageSnapshot
new_snapshot id volume name = record {
  id = id;
  name = name;
  created_at = record { unix = pos 0; nanosecond = 0 };
  block_storage_volume = some volume;
}

unfoldable pub add_snapshot : String → String → Action Memory Operation
unfolding done add_to
add_snapshot volume name w = (
  ok (done (itoa (pos w.next))),
  record w {
    next = suc w.next;
    volumes = add_to volume (itoa (pos w.next)) w.volumes;
    snapshots = new_snapshot (itoa (pos w.next)) volume name ∷ w.snapshots;
  },
)

unfoldable pub remove_snapshot : String → List BlockStorageSnapshot → List BlockStorageSnapshot
remove_snapshot id [] = []
remove_snapshot id (s ∷ l) =
    let rest = remove_snapshot id l in if str_eq s.id id then rest else s ∷ rest

unfoldable pub drop_snapshot : String → Option BlockStorageSnapshot → Action Memory Operation
unfolding remove_snapshot done
drop_snapshot id none w = (err missing, w)
drop_snapshot id (some _) w =
    (ok (done id), record w { snapshots = remove_snapshot id w.snapshots })

abbrev pub memory_api : Api
memory_api = record {
  State = Memory;
  parse_uuid = ok;
  validate = λ req. ok tt;
  get_zone_api_endpoint = λ c z. pure z;
  list_zones = λ c. pure (record { name = "ch-gva-2"; api_endpoint = "ch-gva-2" } ∷ []);
  list_block_storage_volumes = λ c w. (ok w.volumes, w);
  get_block_storage_volume = λ c id w. found (by_id id w.volumes) w;
  create_block_storage_volume = λ c req. add req;
  delete_block_storage_volume = λ c id w. drop_volume id (by_id id w.volumes) w;
  attach_block_storage_volume_to_instance =
      λ c id instance w. attach_volume id instance (by_id id w.volumes) w;
  detach_block_storage_volume = λ c id w. detach_volume id (by_id id w.volumes) w;
  resize_block_storage_volume = λ c id size w. (ok (done id), w);
  list_block_storage_snapshots = λ c w. (ok w.snapshots, w);
  get_block_storage_snapshot = λ c id w. found (find? (λ s. str_eq s.id id) w.snapshots) w;
  create_block_storage_snapshot = λ c volume name. add_snapshot volume name;
  delete_block_storage_snapshot =
      λ c id w. drop_snapshot id (find? (λ s. str_eq s.id id) w.snapshots) w;
  wait = λ c op. pure op;
}
