-- ===== src/Controller/Listing.antt =====
-- ListVolumes and ListSnapshots: every zone is listed, and a page of the entries is returned.
pub mod Pages
pub mod Fetch
use exoscale_csi_driver.Base.{
  ◌-◌, leb, ℤ, pos, ◌+ℤ◌, ◌-ℤ◌, ltb_ℤ, eqb_ℤ, pos_part, wrap64, Bool, true, not, ◌&&◌, String,
  str_eq, contains, none, some, List, [], ◌∷◌, ◌++◌, map, length, take, drop, if◌then◌else◌,
  aborted, status, no_args, Error, foreign_text, slice_out_of_range, nil_dereference, Result, ok,
  err, panic, and_then, Action, pure, fail, lift, handle, ◌>>=◌,
}
use exoscale_csi_driver.Base.Decimal.{itoa, atoi}
use exoscale_csi_driver.Csi.{Topology}
use exoscale_csi_driver.Helpers.{exoscale_id, new_zone_topology, convert_gib_to_bytes}
use exoscale_csi_driver.Api.{Api, Zone, BlockStorageVolume, BlockStorageSnapshot, Time}
use exoscale_csi_driver.Controller.{ControllerService}
use exoscale_csi_driver.Controller.Queries.{published_nodes}

pub record VolumeEntry : Type 0 where
  pub volume_id : String
  pub capacity_bytes : ℤ
  pub accessible_topology : List Topology
  pub published_node_ids : List String

-- csi.Snapshot; the optional size is left unset.
pub record Snapshot : Type 0 where
  pub snapshot_id : String
  pub source_volume_id : String
  pub creation_time : Time
  pub ready_to_use : Bool

-- `entries[lo:hi]`, for `hi` up to the length: no caller goes beyond it.
unfoldable pub slice {ℓ} : {A : Type ℓ} → ℤ → ℤ → List A → Result (List A)
slice lo hi xs =
    if not (ltb_ℤ lo (pos 0)) && not (ltb_ℤ hi lo) && leb (pos_part hi) (length xs)
    then ok (take (pos_part hi - pos_part lo) (drop (pos_part lo) xs))
    else panic slice_out_of_range

-- `entries[lo:]`
unfoldable pub slice_from {ℓ} : {A : Type ℓ} → ℤ → List A → Result (List A)
slice_from lo xs =
    if not (ltb_ℤ lo (pos 0)) && leb (pos_part lo) (length xs)
    then ok (drop (pos_part lo) xs)
    else panic slice_out_of_range

-- The number in the token: `int` from `strconv.Atoi`, 0 for the empty token.
unfoldable pub parse_token : String → Result ℤ
parse_token starting_token =
    if str_eq starting_token "" then ok (pos 0) else elim (atoi starting_token) [
      | none ↦ err (status aborted "invalid startingToken" no_args)
      | some n ↦ ok n
    ]

-- The page that begins at `number_results`, and the token of the next one.
unfoldable pub paginate {ℓ} : {A : Type ℓ} → ℤ → ℤ → List A → Result (List A × String)
unfolding slice slice_from
paginate max_entries number_results entries =
    if eqb_ℤ max_entries (pos 0)
    then (if not (eqb_ℤ number_results (pos 0))
        then and_then (slice_from number_results entries) (λ page. ok (page, ""))
        else ok (entries, ""))
    else if ltb_ℤ (wrap64 (pos (length entries) -ℤ number_results)) max_entries
    then and_then (slice_from number_results entries) (λ page. ok (page, ""))
    else let next = wrap64 (number_results +ℤ max_entries) in
      and_then (slice number_results next entries) (λ page. ok (page, itoa next))

unfoldable pub volume_entry : String → BlockStorageVolume → VolumeEntry
unfolding published_nodes convert_gib_to_bytes new_zone_topology exoscale_id
volume_entry zone_name v = record {
  volume_id = exoscale_id zone_name v.id;
  capacity_bytes = convert_gib_to_bytes v.size;
  accessible_topology = new_zone_topology zone_name;
  published_node_ids = published_nodes zone_name v.instance_id;
}

-- A snapshot without its volume is a nil pointer that the loop reads through.
unfoldable pub snapshot_entry : String → BlockStorageSnapshot → Result Snapshot
unfolding exoscale_id
snapshot_entry zone_name s = elim s.block_storage_volume [
  | none ↦ panic nil_dereference
  | some volume ↦ ok (record {
    snapshot_id = exoscale_id zone_name s.id;
    source_volume_id = exoscale_id zone_name volume;
    creation_time = s.created_at;
    ready_to_use = true;
  })
]

unfoldable pub snapshot_entries : String → List BlockStorageSnapshot → Result (List Snapshot)
unfolding snapshot_entry
snapshot_entries zone_name [] = ok []
snapshot_entries zone_name (s ∷ l) =
    let rest = snapshot_entries zone_name l in
    and_then (snapshot_entry zone_name s) (λ e. and_then rest (λ es. ok (e ∷ es)))

-- A zone that does not offer block storage is passed over.
unfoldable pub is_unavailable : Error → Bool
unfolding contains foreign_text
is_unavailable e = contains (foreign_text e) "Availability of the block storage volumes"

module _ (A : Api) where
  -- The loop over the zones. `list` gets the entries of one zone through its endpoint.
  unfoldable pub collect :
      {E : Type 0} → (Zone → Action A.State (List E)) → List Zone → Action A.State (List E)
  unfolding is_unavailable
  collect list [] = pure []
  collect list (zone ∷ zones) =
      let rest = collect list zones in
      handle (list zone) (λ e. if is_unavailable e then rest else fail e)
        (λ es. handle rest fail (λ more. pure (es ++ more)))

  volumes_in : Zone → Action A.State (List VolumeEntry)
  unfolding volume_entry
  volumes_in zone = do
    volumes ← A.list_block_storage_volumes zone.api_endpoint
    pure (map (volume_entry zone.name) volumes)

  snapshots_in : Zone → Action A.State (List Snapshot)
  unfolding snapshot_entries
  snapshots_in zone = do
    snapshots ← A.list_block_storage_snapshots zone.api_endpoint
    lift (snapshot_entries zone.name snapshots)

  unfoldable pub volume_entries : ControllerService → Action A.State (List VolumeEntry)
  unfolding collect volumes_in
  volume_entries d = do zones ← A.list_zones d.client; collect volumes_in zones

  unfoldable pub all_snapshots : ControllerService → Action A.State (List Snapshot)
  unfolding collect snapshots_in
  all_snapshots d = do zones ← A.list_zones d.client; collect snapshots_in zones

  -- The request's `max_entries` and `starting_token`.
  unfoldable pub list_volumes :
      ControllerService → ℤ → String → Action A.State (List VolumeEntry × String)
  unfolding parse_token volume_entries paginate
  list_volumes d max_entries starting_token = do
    number_results ← lift (parse_token starting_token)
    entries ← volume_entries d
    lift (paginate max_entries number_results entries)

  unfoldable pub list_snapshots :
      ControllerService → ℤ → String → Action A.State (List Snapshot × String)
  unfolding parse_token all_snapshots paginate
  list_snapshots d max_entries starting_token = do
    number_results ← lift (parse_token starting_token)
    entries ← all_snapshots d
    lift (paginate max_entries number_results entries)
