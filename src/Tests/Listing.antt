-- ===== src/Tests/Listing.antt =====
-- ListVolumes and ListSnapshots.
use exoscale_csi_driver.Base.{
  String, ◌≡◌, refl, inl, true, some, List, [], ◌∷◌, arith, pos, negsuc, slice_out_of_range, ok,
  panic,
}
use exoscale_csi_driver.Helpers.{exoscale_id}
use exoscale_csi_driver.Api.{Zone, BlockStorageVolume, BlockStorageSnapshot}
use exoscale_csi_driver.Api.Memory.{Memory, memory_api}
use exoscale_csi_driver.Controller.{ControllerService}
use exoscale_csi_driver.Controller.Listing.{
  VolumeEntry, Snapshot, volume_entries, all_snapshots, snapshot_entries, list_volumes,
  list_snapshots, paginate, collect,
}
use exoscale_csi_driver.Controller.Listing.Pages.{paginate_panics, fetch_all}
use exoscale_csi_driver.Controller.Listing.Fetch.{entries_of, fetch_all-listings, volume_entries-eq}

abbrev service : ControllerService
service = record { client = "ch-gva-2"; zone_name = "ch-gva-2" }

abbrev zone : Zone
zone = record { name = "ch-gva-2"; api_endpoint = "ch-gva-2" }

abbrev volume : String → BlockStorageVolume
volume id = record {
  id = id;
  name = "data";
  size = pos 10;
  instance_id = some "i-1";
  block_storage_snapshots = [];
}

abbrev snapshot : BlockStorageSnapshot
snapshot = record {
  id = "8";
  name = "monday";
  created_at = record { unix = pos 0; nanosecond = 0 };
  block_storage_volume = some "7";
}

abbrev stored : Memory
stored = record {
  next = 10;
  volumes = volume "5" ∷ volume "6" ∷ volume "7" ∷ [];
  snapshots = snapshot ∷ [];
}

abbrev entries : List VolumeEntry
entries = entries_of (λ endpoint. stored.volumes) (zone ∷ [])

volume_entries-eq_example : volume_entries memory_api service stored ≡ (ok entries, stored)
volume_entries-eq_example =
    volume_entries-eq memory_api stored (λ endpoint. stored.volumes) service (zone ∷ []) refl
      (λ endpoint. inl refl)

volume_entries_lists : volume_entries memory_api service stored ≡ (ok entries, stored)
unfolding volume_entries collect
volume_entries_lists = refl

abbrev snapshots : List Snapshot
snapshots =
    record {
      snapshot_id = "ch-gva-2/8";
      source_volume_id = "ch-gva-2/7";
      creation_time = record { unix = pos 0; nanosecond = 0 };
      ready_to_use = true;
    }
    ∷ []

all_snapshots_lists : all_snapshots memory_api service stored ≡ (ok snapshots, stored)
unfolding all_snapshots collect snapshot_entries exoscale_id
all_snapshots_lists = refl

fetch_all-listings_example :
    (fetch_all (list_volumes memory_api service) 4 (pos 2) "" stored ≡ (ok entries, stored))
    × (fetch_all (list_snapshots memory_api service) 2 (pos 2) "" stored ≡ (ok snapshots, stored))
fetch_all-listings_example =
    fetch_all-listings memory_api service stored 2 (omega arith) (omega arith) entries snapshots
      volume_entries_lists all_snapshots_lists (omega arith) (omega arith)

abbrev letters : List String
letters = "a" ∷ "b" ∷ "c" ∷ []

paginate_panics_example : paginate (pos 2) (negsuc 0) letters ≡ panic slice_out_of_range
paginate_panics_example =
    paginate_panics letters (pos 2) (negsuc 0) (omega arith) (omega arith, omega arith)
      (omega arith) (omega arith) (inl (omega arith))
