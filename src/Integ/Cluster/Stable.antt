-- ===== src/Integ/Cluster/Stable.antt =====
-- What the calls of internal/integ/cluster/setup.go and utils.go leave of the Cluster they work on.
use exoscale_csi_driver.Base.{
  String, str_eq, Bool-cases, List, inl, inr, Option-cases, [], ◌∷◌, Error, Action, pure, fail,
  lift, handle, find?, handle-invariant, or_else, ◌>>=◌, ◌>>◌, wrap, pos,
}
use exoscale_csi_driver.Api.{Operation}
use exoscale_csi_driver.Integ.Flags.{validate_flags}
use exoscale_csi_driver.Integ.Kubernetes.{Kubernetes}
use exoscale_csi_driver.Integ.Egoscale.{ApiKey, IamRole, InstanceType, Egoscale}
use exoscale_csi_driver.Integ.K8s.{log_error}
use exoscale_csi_driver.Integ.Cluster.{
  Cluster, Run, at_ego, at_flags, set_cluster, get_cluster, get_cluster_id, get_kubeconfig,
  get_k8s_clients, await_id, await_success,
}
use exoscale_csi_driver.Integ.Cluster.Csi.{delete_api_keys, delete_role, delete_api_key_and_role}
use exoscale_csi_driver.Integ.Cluster.Setup.{
  get_latest_sks_version, get_instance_type, cluster_request, nodepool_request, is_standard_medium,
  create_cluster, provision_sks_cluster,
}

module _ {W : Type 0} (P : Cluster → Type 0) where
  -- The action keeps the property of the object, whatever its result is.
  abbrev pub Stable : {A : Type 0} → Action (Run W) A → Type 0
  Stable m = (s : Run W) → P s.cluster → P (m s).1.cluster

  pub handle-Stable :
      {A B : Type 0} (m : Action (Run W) A) (g : Error → Action (Run W) B)
      (f : A → Action (Run W) B)
      → Stable m
      → ((e : Error) → Stable (g e))
      → ((a : A) → Stable (f a))
      → Stable (handle m g f)
  handle-Stable m g f hm hg hf s p =
      handle-invariant (λ t. P t.cluster) m g f s (hm s p) (λ e t q. hg e t q) (λ a t q. hf a t q)

  >>=-Stable :
      {A B : Type 0} (m : Action (Run W) A) (f : A → Action (Run W) B)
      → Stable m
      → ((a : A) → Stable (f a))
      → Stable (m >>= f)
  >>=-Stable m f hm hf = handle-Stable m fail f hm (λ e s p. p) hf

  module _ (E : Egoscale W) where
    pub get_cluster_id-Stable : Stable (get_cluster_id E)
    unfolding get_cluster_id
    get_cluster_id-Stable =
        >>=-Stable (at_flags validate_flags) _ (λ s p. p)
          λ _.
            >>=-Stable (at_ego E.list_sks_clusters) _ (λ s p. p)
              λ list s p.
                >>=-Stable (lift (E.find_sks_cluster list s.flags.values.cluster_name)) _ (λ t q. q)
                  (λ _ t q. q) s p

    pub await_id-Stable : (call : Action (Run W) Operation) → Stable call → Stable (await_id E call)
    unfolding await_id
    await_id-Stable call h = >>=-Stable call _ h λ op.
        >>=-Stable (at_ego (λ ego. E.wait ego op)) _ (λ s p. p)
          λ done s p. elim (Option-cases done.reference) [
            | inl nil ↦ rw nil p
            | inr (id, e) ↦ rw e p
          ]

    await_success-Stable :
        (call : Action (Run W) Operation) → Stable call → Stable (await_success E call)
    unfolding await_success
    await_success-Stable call h =
        >>=-Stable (await_id E call) _ (await_id-Stable call h) (λ id s p. p)

    get_kubeconfig-Stable : Stable (get_kubeconfig E)
    unfolding get_kubeconfig
    get_kubeconfig-Stable s p =
        (>>=-Stable (at_ego (λ ego. E.get_sks_cluster ego s.cluster.id)) _ (λ t q. q)
            λ cluster.
              >>=-Stable
                (at_ego (λ ego.
                  E.generate_sks_cluster_kubeconfig ego cluster.id
                    (record { groups = "system:masters" ∷ []; ttl = pos 7200; user = "admin" })))
                _ (λ t q. q) (λ config t q. q))
          s p

    pub get_k8s_clients-Stable : (K : Kubernetes W) → Stable (get_k8s_clients E K)
    unfolding get_k8s_clients
    get_k8s_clients-Stable K =
        >>=-Stable (get_kubeconfig E) _ get_kubeconfig-Stable (λ config s p. p)

    get_cluster-Stable : Stable (get_cluster E)
    unfolding get_cluster
    get_cluster-Stable = >>=-Stable (get_cluster_id E) _ get_cluster_id-Stable (λ id s p. p)

    delete_api_keys-Stable : (keys : List ApiKey) → Stable (delete_api_keys E keys)
    unfolding delete_api_keys
    delete_api_keys-Stable [] s p = p
    delete_api_keys-Stable (key ∷ keys) s p =
        let call : Action (Run W) Operation = at_ego (λ ego. E.delete_api_key ego key.key) in
        let delete = or_else (await_success E call) (wrap "error deleting existing IAM key: %w") in
        elim (Bool-cases (str_eq key.name s.cluster.api_key_name)) [
          | inl same ↦ rw same (
              >>=-Stable delete (λ _. delete_api_keys E keys)
                (handle-Stable (await_success E call) _ pure (await_success-Stable call (λ t q. q))
                  (λ e t q. q) (λ u t q. q))
                (λ _. delete_api_keys-Stable keys) s p)
          | inr other ↦ rw other (delete_api_keys-Stable keys s p)
        ]

    delete_role-Stable : (roles : List IamRole) → Stable (delete_role E roles)
    unfolding delete_role
    delete_role-Stable roles s p =
        handle-Stable (lift (E.find_iam_role roles s.cluster.api_role_name)) _ _ (λ t q. q)
          (λ e t q. q)
          (λ role.
            let call : Action (Run W) Operation = at_ego (λ ego. E.delete_iam_role ego role.id) in
            handle-Stable (await_success E call) (λ _. pure tt) (λ _. pure tt)
              (await_success-Stable call (λ t q. q)) (λ e t q. q) (λ u t q. q))
          s p

    pub delete_api_key_and_role-Stable : Stable (delete_api_key_and_role E)
    unfolding delete_api_key_and_role
    delete_api_key_and_role-Stable =
        let list_keys = or_else (at_ego E.list_api_keys) (wrap "error listing api keys: %w") in
        let list_roles = or_else (at_ego E.list_iam_roles) (wrap "error listing iam roles: %w") in
        >>=-Stable list_keys _
          (handle-Stable (at_ego E.list_api_keys) _ pure (λ t q. q) (λ e t q. q) (λ k t q. q))
          (λ keys.
            >>=-Stable (delete_api_keys E keys) (λ _. list_roles >>= delete_role E)
              (delete_api_keys-Stable keys)
              (λ _.
                >>=-Stable list_roles (delete_role E)
                  (handle-Stable (at_ego E.list_iam_roles) _ pure (λ t q. q) (λ e t q. q)
                    (λ k t q. q))
                  delete_role-Stable))

    get_latest_sks_version-Stable : Stable (get_latest_sks_version E)
    unfolding get_latest_sks_version
    get_latest_sks_version-Stable =
        >>=-Stable
          (or_else (at_ego E.list_sks_cluster_versions) (wrap "error retrieving SKS versions: %w"))
          _
          (handle-Stable (at_ego E.list_sks_cluster_versions) _ pure (λ s p. p) (λ e s p. p)
            (λ versions s p. p))
          (λ versions s p. p)

    get_instance_type-Stable : (family size : String) → Stable (get_instance_type E family size)
    unfolding get_instance_type
    get_instance_type-Stable family size =
        >>=-Stable (at_ego E.list_instance_types) _ (λ s p. p)
          λ types s p. elim (Option-cases (find? is_standard_medium types)) [
            | inl nil ↦ rw nil p
            | inr (t, e) ↦ rw e p
          ]

    module _ (closed : (c : Cluster) (id : String) → P c → P (record c { id = id })) where
      -- What createCluster does with the ID of the new cluster.
      abbrev add_nodepool : String → InstanceType → String → Action (Run W) (Unit {0})
      add_nodepool name instance_type id =
          set_cluster (λ c. record c { id = id })
          >> log_error (
              await_success E (
                at_ego (λ ego. E.create_sks_nodepool ego id (nodepool_request name instance_type))))

      add_nodepool-Stable :
          (name : String) (instance_type : InstanceType) (id : String)
          → Stable (add_nodepool name instance_type id)
      add_nodepool-Stable name instance_type id =
          let create : Action (Run W) Operation =
            at_ego (λ ego. E.create_sks_nodepool ego id (nodepool_request name instance_type)) in
          let add : Action (Run W) (Unit {0}) = await_success E create in
          >>=-Stable (set_cluster (λ c. record c { id = id })) (λ _. log_error add)
            (λ t q. closed t.cluster id q)
            (λ _.
              handle-Stable add (λ _. pure tt) (λ _. pure tt)
                (await_success-Stable create (λ t q. q)) (λ e t q. q) (λ u t q. q))

      create_cluster-Stable : Stable (create_cluster E)
      unfolding create_cluster
      create_cluster-Stable s p =
          let make = λ (version : String).
            at_ego (λ ego. E.create_sks_cluster ego (cluster_request s.cluster.name version)) in
          let rest = λ (version : String) (instance_type : InstanceType).
            await_id E (make version) >>= add_nodepool s.cluster.name instance_type in
          (>>=-Stable (get_latest_sks_version E)
              (λ version. get_instance_type E "standard" "medium" >>= rest version)
              get_latest_sks_version-Stable
              (λ version.
                >>=-Stable (get_instance_type E "standard" "medium") (rest version)
                  (get_instance_type-Stable "standard" "medium")
                  (λ instance_type.
                    >>=-Stable (await_id E (make version))
                      (add_nodepool s.cluster.name instance_type)
                      (await_id-Stable (make version) (λ t q. q))
                      (add_nodepool-Stable s.cluster.name instance_type))))
            s p

      pub provision_sks_cluster-Stable : Stable (provision_sks_cluster E)
      unfolding provision_sks_cluster
      provision_sks_cluster-Stable =
          handle-Stable (get_cluster E) _ _ get_cluster-Stable (λ e. create_cluster-Stable)
            (λ c s p. p)
