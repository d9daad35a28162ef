-- ===== src/Integ/Cluster/Configured.antt =====
-- What ConfigureCluster of internal/integ/cluster/setup.go has filled in when it returns.
use exoscale_csi_driver.Base.{
  String, ◌<>◌, ◌≡◌, refl, sym, subst, ap, Bool, true, false, some, Error, Action, pure,
  >>=-ok_elim, or_else-ok_elim, or_else, if◌then◌else◌, Result, ok-injective, wrap, ok, err, panic,
}
use exoscale_csi_driver.Integ.Kubernetes.{Kubernetes}
use exoscale_csi_driver.Integ.Egoscale.{Egoscale, create_egoscale_client}
use exoscale_csi_driver.Integ.K8s.{K8s}
use exoscale_csi_driver.Integ.Cluster.{Cluster, Run, get_cluster_id, get_k8s_clients}
use exoscale_csi_driver.Integ.Cluster.Setup.{
  Process, api_key_prefix, new_cluster, run_on, after, with_names, with_cluster,
  provision_sks_cluster, fill_cluster, configure_cluster,
}
use exoscale_csi_driver.Integ.Cluster.Stable.{
  handle-Stable, get_cluster_id-Stable, get_k8s_clients-Stable, provision_sks_cluster-Stable,
}

module _ {W : Type 0} (K : Kubernetes W) (E : Egoscale W) (name client : String) where
  -- The object has the name and the client, the names of the API key and of the role that belong to
  -- the name, clients of Kubernetes, and an ID that getClusterID has returned.
  abbrev pub Configured : Cluster → Type 0
  Configured c =
      (c.name ≡ name)
      × (c.ego ≡ client)
      × (c.api_key_name ≡ api_key_prefix <> name)
      × (c.api_role_name ≡ (api_key_prefix <> name) <> "-role")
      × (k : K8s) × (c.k8s ≡ some k)
      × (s t : Run W) × (get_cluster_id E s ≡ (ok c.id, t))

  abbrev Named : Cluster → Type 0
  Named c = (c.name ≡ name) × (c.ego ≡ client)

  provision-Named :
      (create : Bool) (s : Run W)
      → Named s.cluster
      → Named
          ((if create
              then or_else (provision_sks_cluster E) (wrap "error creating SKS cluster: %w")
              else pure tt)
            s).1.cluster
  provision-Named true s p =
      handle-Stable Named (provision_sks_cluster E) _ pure
        (provision_sks_cluster-Stable Named E (λ c id q. q)) (λ e t q. q) (λ a t q. q) s p
  provision-Named false s p = p

  fill_cluster-Configured :
      (create : Bool) (s : Run W) {s' : Run W}
      → Named s.cluster
      → fill_cluster K E create s ≡ (ok tt, s')
      → Configured s'.cluster
  unfolding fill_cluster
  fill_cluster-Configured create s {s'} named h =
      let no_id : Error → Error = wrap "error getting cluster ID: %w" in
      let no_clients : Error → Error = wrap "error initializing k8s clients: %w" in
      >>=-ok_elim
        (if create
          then or_else (provision_sks_cluster E) (wrap "error creating SKS cluster: %w")
          else pure tt)
        _ s h
        λ u s₁ provisioned h₁.
          >>=-ok_elim (or_else (get_cluster_id E) no_id) _ s₁ h₁ λ id s₂ identified h₂.
            let filled = record s₂ { cluster = with_names id s₂.cluster } in
            >>=-ok_elim (or_else (get_k8s_clients E K) no_clients) _ filled h₂ λ k s₃ connected h₃.
              or_else-ok_elim (get_cluster_id E) no_id s₁ identified λ found.
                or_else-ok_elim (get_k8s_clients E K) no_clients filled connected λ clients.
                  let named₁ : Named s₁.cluster =
                    subst (λ t. Named t.cluster) (ap (λ p. p.1) provisioned)
                      (provision-Named create s named) in
                  let named₂ : Named s₂.cluster =
                    subst (λ t. Named t.cluster) (ap (λ p. p.1) found)
                      (get_cluster_id-Stable Named E s₁ named₁) in
                  let same : s₃.cluster ≡ with_names id s₂.cluster =
                    subst (λ t. t.cluster ≡ with_names id s₂.cluster) (ap (λ p. p.1) clients)
                      (get_k8s_clients-Stable (λ c. c ≡ with_names id s₂.cluster) E K filled
                        refl) in
                  subst (λ t. Configured t.cluster) (ap (λ p. p.1) h₃)
                    (subst (λ c. Configured (record c { k8s = some k })) (sym same)
                      (
                        named₂.0,
                        named₂.1,
                        rw named₂.0 refl,
                        rw named₂.0 refl,
                        k,
                        refl,
                        s₁,
                        s₂,
                        found,
                      ))

  -- An object that ConfigureCluster returns is the one that the action has left.
  with_cluster-ok_elim :
      (m : Action (Run W) (Unit {0})) (p : Process W) {c : Cluster} {p' : Process W}
      → with_cluster (new_cluster client name) m p ≡ (ok c, p')
      → (t : Run W) × (m (run_on p (new_cluster client name)) ≡ (ok tt, t)) × (t.cluster ≡ c)
  with_cluster-ok_elim m p {c} {p'} h =
      let r = m (run_on p (new_cluster client name)) in go r.0 r.1 refl h
    where
      go :
          (r : Result (Unit {0})) (t : Run W)
          → m (run_on p (new_cluster client name)) ≡ (r, t)
          → ◌≡◌ {A = Result Cluster × Process W}
              (elim r [ ok _ ↦ ok t.cluster | err e ↦ err e | panic x ↦ panic x ], after p t)
              (ok c, p')
          → (t : Run W) × (m (run_on p (new_cluster client name)) ≡ (ok tt, t)) × (t.cluster ≡ c)
      go (ok u) t e k = (t, e, ok-injective (ap (λ p. p.0) k))
      go (err x) t e k = absurd (cc k)
      go (panic x) t e k = absurd (cc k)

module _ {W : Type 0} (K : Kubernetes W) (E : Egoscale W) where
  -- When ConfigureCluster returns no error, a client could be made for the zone, and the object that
  -- is returned has the name asked for, this client, the API key name and the role name that belong
  -- to the name, the clients of Kubernetes, and an ID that getClusterID has returned, whether or not
  -- the cluster was to be created.
  pub configure_cluster-Configured :
      (create : Bool) (name zone : String) (p : Process W) {c : Cluster} {p' : Process W}
      → configure_cluster K E create name zone p ≡ (ok c, p')
      → (client : String) × (w : W) × (create_egoscale_client E zone p.world ≡ (ok client, w))
        × Configured K E name client c
  unfolding configure_cluster
  configure_cluster-Configured create name zone p {c} {p'} h =
      let connect : Action (Process W) String =
        λ p. (let r = create_egoscale_client E zone p.world in (r.0, record p { world = r.1 })) in
      let failed : Error → Error = wrap "error creating egoscale v3 client: %w" in
      >>=-ok_elim (or_else connect failed) _ p h λ client p₁ connected h₁.
        or_else-ok_elim connect failed p connected λ made.
          let filled = with_cluster-ok_elim K E name client (fill_cluster K E create) p₁ h₁ in
          (
            client,
            p₁.world,
            ap (λ r. (r.0, r.1.world)) made,
            subst (Configured K E name client) filled.2 (
                fill_cluster-Configured K E name client create (run_on p₁ (new_cluster client name))
                  (refl, refl) filled.1),
          )
