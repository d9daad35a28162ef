-- ===== src/Controller/Lifecycle/Others.antt =====
-- The requests about snapshots and sizes keep the names of the volumes of a zone.
use exoscale_csi_driver.Base.{
  String, ◌≡◌, refl, sym, subst, ap, Option, none, some, is_not_found, pure, fail, lift, or_else,
  handle-keeps, handle-state, handle-state_of_rest, >>=-keeps_state, tolerate-keeps, ok,
}
use exoscale_csi_driver.Helpers.{get_exoscale_id, get_new_volume_size}
use exoscale_csi_driver.Api.{Api, BlockStorageVolume, BlockStorageSnapshot}
use exoscale_csi_driver.Api.Laws.{Service}
use exoscale_csi_driver.Api.Names.{names, NameLaws}
use exoscale_csi_driver.Controller.{ControllerService, new_client_zone}
use exoscale_csi_driver.Controller.Attachment.{volume_not_found}
use exoscale_csi_driver.Controller.Expand.{
  ExpandRequest, map_error, invalid_range, node_expansion, whole_gib, controller_expand_volume,
}
use exoscale_csi_driver.Controller.Snapshots.{
  snapshot_reference, find_snapshot, take_snapshot, take_or_reuse, create_snapshot,
  delete_snapshot_at, delete_snapshot,
}
use exoscale_csi_driver.Controller.Snapshots.Creation.{create_snapshot-eq, find_snapshot-keeps}
use exoscale_csi_driver.Controller.Snapshots.Deletion.{delete_snapshot-eq}

module _ (A : Api) (L : Service A) (N : NameLaws A L) where
  open L use {volumes}

  abbrev pub SameNames : String → A.State → A.State → Type 0
  SameNames client w t = names (volumes t client) ≡ names (volumes w client)

  get_volume-keeps :
      (client id : String) (w : A.State) → (A.get_block_storage_volume client id w).1 ≡ w
  get_volume-keeps client id w = ap (λ x. x.1) (L.get_block_storage_volume-eq client id w).1

  take_snapshot-names :
      (client zone name : String) (volume : BlockStorageVolume) (w : A.State)
      → SameNames client w (take_snapshot A client zone volume name w).1
  unfolding take_snapshot
  take_snapshot-names client zone name volume w =
      subst (SameNames client w)
        (sym (
          handle-state_of_rest (A.create_block_storage_snapshot client volume.id name) fail _
            (A.wait client) w (λ e w₁. refl)
            (λ op w₁. >>=-keeps_state (A.wait client op) _ w₁ (λ op' w₂.
              handle-keeps (lift (snapshot_reference op')) fail _ w₂ refl (λ e. refl)
                (λ id.
                  handle-keeps (A.get_block_storage_snapshot client id) fail _ w₂
                    (L.get_block_storage_snapshot-keeps client id w₂) (λ e. refl) (λ s. refl))))))
        (N.create_snapshot-names client volume.id name w)

  take_or_reuse-names :
      (client zone name : String) (volume : BlockStorageVolume) (o : Option BlockStorageSnapshot)
      (w : A.State)
      → SameNames client w (take_or_reuse A client zone volume name o w).1
  unfolding take_or_reuse
  take_or_reuse-names client zone name volume none w = take_snapshot-names client zone name volume w
  take_or_reuse-names client zone name volume (some s) w = refl

  pub create_snapshot-names :
      (d : ControllerService) (source name zone client id : String) (w : A.State)
      → get_exoscale_id A.parse_uuid source ≡ ok (zone, id)
      → L.endpoint d.client zone ≡ ok client
      → SameNames client w (create_snapshot A d source name w).1
  create_snapshot-names d source name zone client id w read ends =
      subst (λ x. SameNames client w x.1)
        (sym (create_snapshot-eq A L d source name zone client id w read ends))
        (handle-state (SameNames client w) (A.get_block_storage_volume client id) _ w
          (get_volume-keeps client id w) refl
          (λ volume.
            handle-state (SameNames client w)
              (find_snapshot A client name volume.block_storage_snapshots)
              (take_or_reuse A client zone volume name) w
              (find_snapshot-keeps A L client name volume.block_storage_snapshots w) refl
              (λ o. take_or_reuse-names client zone name volume o w)))

  pub delete_snapshot-names :
      (d : ControllerService) (exo_id zone client id : String) (w : A.State)
      → get_exoscale_id A.parse_uuid exo_id ≡ ok (zone, id)
      → L.endpoint d.client zone ≡ ok client
      → SameNames client w (delete_snapshot A d exo_id w).1
  unfolding delete_snapshot_at
  delete_snapshot-names d exo_id zone client id w read ends =
      subst (λ x. SameNames client w x.1)
        (sym (delete_snapshot-eq A L d exo_id zone client id w read ends))
        (subst (SameNames client w)
          (sym (
            handle-state_of_rest (A.delete_block_storage_snapshot client id) _ _ (A.wait client) w
              (λ e w₁. tolerate-keeps (is_not_found e) e w₁)
              (λ op w₁. >>=-keeps_state (A.wait client op) (λ _. pure tt) w₁ (λ a w₂. refl))))
          (N.delete_snapshot-names client id w))

  pub expand-names :
      (d : ControllerService) (req : ExpandRequest) (zone client id : String) (w : A.State)
      → get_exoscale_id A.parse_uuid req.volume_id ≡ ok (zone, id)
      → L.endpoint d.client zone ≡ ok client
      → SameNames client w (controller_expand_volume A d req w).1
  unfolding controller_expand_volume new_client_zone
  expand-names d req zone client id w read ends =
      rw (read, L.get_zone_api_endpoint-eq, ends)
        (handle-state (SameNames client w)
          (or_else (A.get_block_storage_volume client id) (volume_not_found id)) _ w
          (handle-keeps (A.get_block_storage_volume client id) _ pure w
            (get_volume-keeps client id w) (λ e. refl) (λ v. refl))
          refl
          (λ v.
            handle-state (SameNames client w) (lift (node_expansion req.volume_capability)) _ w refl
              refl
              (λ needed.
                handle-state (SameNames client w)
                  (lift (map_error invalid_range (get_new_volume_size req.capacity_range))) _ w refl
                  refl
                  (λ size.
                    handle-state (SameNames client w) (lift (whole_gib size)) _ w refl refl (λ gib.
                      subst (SameNames client w)
                        (sym (
                          >>=-keeps_state (A.resize_block_storage_volume client id gib) _ w
                            (λ op w₁. refl)))
                        (N.resize-names client id gib w))))))
