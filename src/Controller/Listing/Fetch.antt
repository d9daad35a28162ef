-- ===== src/Controller/Listing/Fetch.antt =====
-- What a client of ListVolumes and ListSnapshots gets, page after page.
use exoscale_csi_driver.Base.{
  ℕ, suc, ◌≤◌, String, ◌≡◌, refl, ◌⊎◌, inl, inr, true, List, [], ◌∷◌, ◌++◌, map, arith, length,
  Error, pos, ok, err,
}
use exoscale_csi_driver.Api.{Api, Zone, BlockStorageVolume}
use exoscale_csi_driver.Controller.{ControllerService}
use exoscale_csi_driver.Controller.Listing.{
  VolumeEntry, Snapshot, volume_entry, is_unavailable, collect, volumes_in, parse_token,
  volume_entries, all_snapshots, list_volumes, list_snapshots,
}
use exoscale_csi_driver.Controller.Listing.Pages.{page_at, paginate_page, fetch_all, fetch_all-drop}

parse_token_empty : parse_token "" ≡ ok (pos 0)
unfolding parse_token
parse_token_empty = refl

module _ (A : Api) (d : ControllerService) (w : A.State) (m : ℕ) (positive : 1 ≤ m)
    (int32 : m ≤ 2147483647) where
  list_volumes-page :
      (entries : List VolumeEntry)
      → volume_entries A d w ≡ (ok entries, w)
      → length entries ≤ 4611686018427387904
      → (n : ℕ) (token : String) → parse_token token ≡ ok (pos n)
      → n ≤ length entries
      → list_volumes A d (pos m) token w ≡ (ok (page_at entries m n), w)
  unfolding list_volumes
  list_volumes-page entries listed small n token ht hn =
      rw (ht, listed, paginate_page entries small m n hn int32)

  list_snapshots-page :
      (entries : List Snapshot)
      → all_snapshots A d w ≡ (ok entries, w)
      → length entries ≤ 4611686018427387904
      → (n : ℕ) (token : String) → parse_token token ≡ ok (pos n)
      → n ≤ length entries
      → list_snapshots A d (pos m) token w ≡ (ok (page_at entries m n), w)
  unfolding list_snapshots
  list_snapshots-page entries listed small n token ht hn =
      rw (ht, listed, paginate_page entries small m n hn int32)

  fetch_all-list_volumes :
      (entries : List VolumeEntry)
      → volume_entries A d w ≡ (ok entries, w)
      → length entries ≤ 4611686018427387904
      → fetch_all (list_volumes A d) (suc (length entries)) (pos m) "" w ≡ (ok entries, w)
  fetch_all-list_volumes entries listed small =
      fetch_all-drop (list_volumes A d) m entries w small positive int32
        (list_volumes-page entries listed small) (suc (length entries)) 0 "" parse_token_empty
        (omega arith) (omega arith)

  fetch_all-list_snapshots :
      (entries : List Snapshot)
      → all_snapshots A d w ≡ (ok entries, w)
      → length entries ≤ 4611686018427387904
      → fetch_all (list_snapshots A d) (suc (length entries)) (pos m) "" w ≡ (ok entries, w)
  fetch_all-list_snapshots entries listed small =
      fetch_all-drop (list_snapshots A d) m entries w small positive int32
        (list_snapshots-page entries listed small) (suc (length entries)) 0 "" parse_token_empty
        (omega arith) (omega arith)

  -- Over a service whose listings do not change meanwhile and have at most 2^62 entries each, a client
  -- that follows the tokens of ListVolumes, or of ListSnapshots, from the empty one, with any positive
  -- limit of 32 bits, gets every entry once, in order, in at most one page more than there are
  -- entries.
  pub fetch_all-listings :
      (entries : List VolumeEntry) (snapshots : List Snapshot)
      → volume_entries A d w ≡ (ok entries, w)
      → all_snapshots A d w ≡ (ok snapshots, w)
      → length entries ≤ 4611686018427387904
      → length snapshots ≤ 4611686018427387904
      → (fetch_all (list_volumes A d) (suc (length entries)) (pos m) "" w ≡ (ok entries, w))
        × (fetch_all (list_snapshots A d) (suc (length snapshots)) (pos m) "" w ≡ (ok snapshots, w))
  fetch_all-listings entries snapshots listed taken few_entries few_snapshots = (
    fetch_all-list_volumes entries listed few_entries,
    fetch_all-list_snapshots snapshots taken few_snapshots,
  )

-- The entries of the zones, one zone after the other.
abbrev pub entries_of : (String → List BlockStorageVolume) → List Zone → List VolumeEntry
entries_of volumes [] = []
entries_of volumes (zone ∷ zones) =
    map (volume_entry zone.name) (volumes zone.api_endpoint) ++ entries_of volumes zones

module _ (A : Api) (w : A.State) (volumes : String → List BlockStorageVolume) where
  -- The endpoint answers with its volumes, or it does not offer block storage and has none.
  abbrev pub Answers : String → Type 0
  Answers endpoint =
      (A.list_block_storage_volumes endpoint w ≡ (ok (volumes endpoint), w))
      ⊎ ((e : Error) × (A.list_block_storage_volumes endpoint w ≡ (err e, w))
          × (is_unavailable e ≡ true)
          × (volumes endpoint ≡ []))

  collect-volumes :
      (zones : List Zone)
      → ((endpoint : String) → Answers endpoint)
      → collect A (volumes_in A) zones w ≡ (ok (entries_of volumes zones), w)
  unfolding collect volumes_in
  collect-volumes [] answers = refl
  collect-volumes (zone ∷ zones) answers = elim (answers zone.api_endpoint) [
    | inl offers ↦ rw (offers, collect-volumes zones answers)
    | inr (e, fails, unavailable, empty) ↦
        rw (fails, unavailable, collect-volumes zones answers, empty)
  ]

  -- When the zones are listed and every endpoint answers with its volumes or does not offer block
  -- storage: the entries of ListVolumes are those of all zones, in order, each volume with its
  -- zone's name in its ID; a zone that does not offer block storage adds nothing, and the listing
  -- does not fail over it.
  pub volume_entries-eq :
      (d : ControllerService) (zones : List Zone)
      → A.list_zones d.client w ≡ (ok zones, w)
      → ((endpoint : String) → Answers endpoint)
      → volume_entries A d w ≡ (ok (entries_of volumes zones), w)
  unfolding volume_entries
  volume_entries-eq d zones listed answers = rw listed (collect-volumes zones answers)
