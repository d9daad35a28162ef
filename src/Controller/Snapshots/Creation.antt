-- ===== src/Controller/Snapshots/Creation.antt =====
-- CreateSnapshot, called again after it succeeded.
use exoscale_csi_driver.Base.{
  String, ◌≡◌, refl, sym, subst, ap, ◌∙◌, ◌≢◌, inl, inr, Option, none, some, List, [], ◌∷◌, ◌++◌,
  str_eq, str_eq_iff, if◌then◌else◌, Bool-cases, ne_of_str_eq-false, ok-injective, Action, pure,
  lift, ◌>>=◌, handle-ok_elim, >>=-ok_elim, lift-ok_elim, handle-keeps, nil_dereference, ok, panic,
}
use exoscale_csi_driver.Helpers.{get_exoscale_id}
use exoscale_csi_driver.Api.{Api, BlockStorageVolume, BlockStorageSnapshot, Operation}
use exoscale_csi_driver.Api.Laws.{Service}
use exoscale_csi_driver.Api.Snapshots.{CreationLaws}
use exoscale_csi_driver.Controller.{ControllerService, new_client_zone}
use exoscale_csi_driver.Controller.Listing.{Snapshot}
use exoscale_csi_driver.Controller.Snapshots.{
  snapshot_of, snapshot_reference, find_snapshot, take_snapshot, take_or_reuse, create_snapshot,
}

module _ (A : Api) (L : Service A) where
  -- CreateSnapshot behind the look-up of the zone.
  abbrev pub create_at : String → String → String → String → Action A.State Snapshot
  create_at client zone id name = do
    volume ← A.get_block_storage_volume client id
    found ← find_snapshot A client name volume.block_storage_snapshots
    take_or_reuse A client zone volume name found

  pub create_snapshot-eq :
      (d : ControllerService) (source name zone client id : String) (w : A.State)
      → get_exoscale_id A.parse_uuid source ≡ ok (zone, id)
      → L.endpoint d.client zone ≡ ok client
      → create_snapshot A d source name w ≡ create_at client zone id name w
  unfolding create_snapshot new_client_zone
  create_snapshot-eq d source name zone client id w read ends =
      rw (read, L.get_zone_api_endpoint-eq, ends)

  pub find_snapshot-keeps :
      (client name : String) (ids : List String) (w : A.State)
      → (find_snapshot A client name ids w).1 ≡ w
  unfolding find_snapshot
  find_snapshot-keeps client name [] w = refl
  find_snapshot-keeps client name (id ∷ ids) w =
      handle-keeps (A.get_block_storage_snapshot client id) (λ _. lift (panic nil_dereference))
        (λ s. if str_eq s.name name then pure (some s) else find_snapshot A client name ids) w
        (L.get_block_storage_snapshot-keeps client id w) (λ e. refl)
        (λ s. elim (Bool-cases (str_eq s.name name)) [
          | inl same ↦ rw same refl
          | inr other ↦ rw other (find_snapshot-keeps client name ids w)
        ])

  -- A loop that ended without a snapshot of the name finds the new one, once it is put in.
  find_snapshot-insert :
      (client name new : String) (l r : List String) (s : BlockStorageSnapshot) (w w' : A.State)
      → find_snapshot A client name (l ++ r) w ≡ (ok none, w)
      → A.get_block_storage_snapshot client new w' ≡ (ok s, w')
      → s.name ≡ name
      → ((old : String)
          → old ≢ new
          → A.get_block_storage_snapshot client old w'
            ≡ ((A.get_block_storage_snapshot client old w).0, w'))
      → find_snapshot A client name (l ++ new ∷ r) w' ≡ (ok (some s), w')
  unfolding find_snapshot
  find_snapshot-insert client name new [] r s w w' h got named others =
      rw (got, (str_eq_iff s.name name).1 named)
  find_snapshot-insert client name new (old ∷ l) r s w w' h got named others =
      elim (Bool-cases (str_eq old new)) [
        | inl same ↦ rw ((str_eq_iff old new).0 same, got, (str_eq_iff s.name name).1 named)
        | inr other ↦
            handle-ok_elim (A.get_block_storage_snapshot client old)
              (λ _. lift (panic nil_dereference))
              (λ t.
                if str_eq t.name name then pure (some t) else find_snapshot A client name (l ++ r))
              w h
              (λ t w₁ there h₁.
                let at_w : w₁ ≡ w =
                  sym (ap (λ p. p.1) there) ∙ L.get_block_storage_snapshot-keeps client old w in
                let again : A.get_block_storage_snapshot client old w' ≡ (ok t, w') =
                  others old (ne_of_str_eq-false old new other)
                  ∙ ap (λ a. (a, w')) (ap (λ p. p.0) there) in
                elim (Bool-cases (str_eq t.name name)) [
                  | inl same ↦ absurd (cc (rw same at h₁))
                  | inr differs ↦
                      rw (again, differs)
                        (find_snapshot-insert client name new l r s w w'
                          (subst (λ u. find_snapshot A client name (l ++ r) u ≡ (ok none, w)) at_w
                            (rw differs at h₁))
                          got named others)
                ])
              (λ e w₁ failed h₁. absurd (cc h₁))
      ]

  reference-of_some :
      (op : Operation) {new : String} → op.reference ≡ some new → snapshot_reference op ≡ ok new
  unfolding snapshot_reference
  reference-of_some op e = rw e refl

  create_at-found :
      (client zone id name : String) (ids : List String) (volume : BlockStorageVolume)
      (s : BlockStorageSnapshot) (w : A.State)
      → A.get_block_storage_volume client id w
        ≡ (ok (record volume { block_storage_snapshots = ids }), w)
      → find_snapshot A client name ids w ≡ (ok (some s), w)
      → create_at client zone id name w ≡ (ok (snapshot_of zone volume s), w)
  unfolding take_or_reuse snapshot_of
  create_at-found client zone id name ids volume s w there found = rw (there, found) refl

module _ (A : Api) (L : Service A) (C : CreationLaws A) where
  -- The answer of a creation that was made, and of the same request behind it.
  take_snapshot_again :
      (client zone id name : String) (volume : BlockStorageVolume) (w : A.State) {snap : Snapshot}
      {w' : A.State}
      → A.get_block_storage_volume client id w ≡ (ok volume, w)
      → find_snapshot A client name volume.block_storage_snapshots w ≡ (ok none, w)
      → take_snapshot A client zone volume name w ≡ (ok snap, w')
      → create_at A L client zone id name w' ≡ (ok snap, w')
  unfolding take_snapshot
  take_snapshot_again client zone id name volume w {snap} {w'} there none_found h =
      >>=-ok_elim (A.create_block_storage_snapshot client volume.id name) _ w h λ op w₁ made h₁.
        >>=-ok_elim (A.wait client op) _ w₁ h₁ λ op' w₂ waited h₂.
          lift-ok_elim (snapshot_reference op') _ w₂ h₂ λ new' refers h₃.
            >>=-ok_elim (A.get_block_storage_snapshot client new') _ w₂ h₃ λ s' w₃ got' h₄.
              let adds = C.create-adds client id name volume op op' w w₁ w₂ there made waited in
              let (new, refers_new, l, r, parts, found, s, got, named, others) = adds in
              let same_id : new' ≡ new =
                ok-injective (sym refers ∙ reference-of_some A L op' refers_new) in
              let got_new : (ok s, w₂) ≡ (ok s', w₃) =
                sym got
                ∙ subst (λ t. A.get_block_storage_snapshot client t w₂ ≡ (ok s', w₃)) same_id
                    got' in
              let same_s : snapshot_of zone volume s ≡ snap =
                ap (snapshot_of zone volume) (ok-injective (ap (λ p. p.0) got_new))
                ∙ ok-injective (ap (λ p. p.0) h₄) in
              let ends : w₂ ≡ w' = ap (λ p. p.1) got_new ∙ ap (λ p. p.1) h₄ in
              let finds : find_snapshot A client name (l ++ new ∷ r) w₂ ≡ (ok (some s), w₂) =
                find_snapshot-insert A L client name new l r s w w₂
                  (subst (λ ids. find_snapshot A client name ids w ≡ (ok none, w)) parts none_found)
                  got named others in
              subst (λ t. create_at A L client zone id name t ≡ (ok snap, t)) ends
                (create_at-found A L client zone id name (l ++ new ∷ r) volume s w₂ found finds
                  ∙ ap (λ a. (ok a, w₂)) same_s)

  -- The state behind the reads is the one before.
  create_at-again :
      (client zone id name : String) (w : A.State) {snap : Snapshot} {w' : A.State}
      → create_at A L client zone id name w ≡ (ok snap, w')
      → create_at A L client zone id name w' ≡ (ok snap, w')
  unfolding take_or_reuse
  create_at-again client zone id name w {snap} {w'} h =
      >>=-ok_elim (A.get_block_storage_volume client id) _ w h λ volume w₁ there h₁.
        let lookup = L.get_block_storage_volume-eq client id w in
        let at_w₁ : w₁ ≡ w = ap (λ p. p.1) (sym there ∙ lookup.1) in
        let there_w =
          subst (λ t. A.get_block_storage_volume client id w ≡ (ok volume, t)) at_w₁ there in
        let h_w = subst (λ t. search_and_take volume t ≡ (ok snap, w')) at_w₁ h₁ in
        >>=-ok_elim (find_snapshot A client name volume.block_storage_snapshots)
          (take_or_reuse A client zone volume name) w h_w
          λ o w₂ searched h₂.
            let at_w₂ : w₂ ≡ w =
              sym (ap (λ p. p.1) searched)
              ∙ find_snapshot-keeps A L client name volume.block_storage_snapshots w in
            behind volume o there_w
              (subst (λ t. find_snapshot A client name volume.block_storage_snapshots w ≡ (ok o, t))
                at_w₂ searched)
              (subst (λ t. take_or_reuse A client zone volume name o t ≡ (ok snap, w')) at_w₂ h₂)
    where
      search_and_take : BlockStorageVolume → Action A.State Snapshot
      search_and_take volume =
          find_snapshot A client name volume.block_storage_snapshots
          >>= take_or_reuse A client zone volume name

      behind :
          (volume : BlockStorageVolume) (o : Option BlockStorageSnapshot)
          → A.get_block_storage_volume client id w ≡ (ok volume, w)
          → find_snapshot A client name volume.block_storage_snapshots w ≡ (ok o, w)
          → take_or_reuse A client zone volume name o w ≡ (ok snap, w')
          → create_at A L client zone id name w' ≡ (ok snap, w')
      behind volume none there searched taken =
          take_snapshot_again client zone id name volume w there searched taken
      behind volume (some s) there searched taken =
          subst (λ t. create_at A L client zone id name t ≡ (ok snap, t)) (ap (λ p. p.1) taken)
            (rw (there, searched) (ap (λ a. (ok a, w)) (ok-injective (ap (λ p. p.0) taken))))

  -- CreateSnapshot is idempotent, over an API that meets the laws of Service and CreationLaws, when
  -- the identifier is read and the endpoint of its zone is found: after a request has succeeded, the
  -- same request succeeds again with the same answer, and changes nothing: it makes no second
  -- snapshot.
  pub create_snapshot-idempotent :
      (d : ControllerService) (source name zone client id : String) (w : A.State) {snap : Snapshot}
      {w' : A.State}
      → get_exoscale_id A.parse_uuid source ≡ ok (zone, id)
      → L.endpoint d.client zone ≡ ok client
      → create_snapshot A d source name w ≡ (ok snap, w')
      → create_snapshot A d source name w' ≡ (ok snap, w')
  create_snapshot-idempotent d source name zone client id w {snap} {w'} read ends h =
      create_snapshot-eq A L d source name zone client id w' read ends
      ∙ create_at-again client zone id name w
          (sym (create_snapshot-eq A L d source name zone client id w read ends) ∙ h)
