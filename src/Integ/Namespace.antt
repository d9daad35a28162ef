-- ===== src/Integ/Namespace.antt =====
-- internal/integ/k8s/namespace.go: a test's namespace, and the manifests in it.
use exoscale_csi_driver.Base.{
  String, ◌<>◌, Bool, true, not, none, some, List, ◌∷◌, if◌then◌else◌, Action, pure, lift, handle,
  ◌>>=◌, ◌>>◌, ok,
}
use exoscale_csi_driver.Integ.Kubernetes.{
  RestConfig, ApiResource, GroupVersion, Unstructured, Kubernetes,
}
use exoscale_csi_driver.Integ.K8s.{
  Kube, in_world, resource_of, find_resource, start_goroutine, events,
}
use exoscale_csi_driver.Base.Decimal.{itoa}

-- Of testing.T: whether the test has failed, and the namespaces that its clean-up deletes, the last
-- one that was registered first.
pub record Testing (W : Type 0) : Type 0 where
  pub failed : Bool
  pub cleanups : List String
  pub kube : Kube W

-- The fields of the template pvcTemplate, which text/template fills in as they are.
pub record Pvc : Type 0 where
  pub name : String
  pub storage_class_name : String
  pub size : String

unfoldable pub pvc_manifest : Pvc → String
pvc_manifest data_of =
    "\napiVersion: v1\nkind: PersistentVolumeClaim\nmetadata:\n  name: "
    <> (data_of.name
        <> ("\nspec:\n  accessModes:\n  - ReadWriteOnce\n  resources:\n    requests:\n      storage: "
            <> (data_of.size <> ("\n  storageClassName: " <> data_of.storage_class_name))))

unfoldable pub pvc_of : String → String → Bool → Pvc
pvc_of name size use_storage_class_retain =
    let data_of : Pvc = record { name = name; storage_class_name = "exoscale-sbs"; size = size } in
    if use_storage_class_retain
    then record data_of { storage_class_name = "exoscale-bs-retain" }
    else data_of

module _ {W : Type 0} where
  abbrev pub in_kube : {A : Type 0} → Action (Kube W) A → Action (Testing W) A
  in_kube m s = ((m s.kube).0, record s { kube = (m s.kube).1 })

  -- t.Error, and assert.NoError behind a call
  abbrev pub test_error : Action (Testing W) (Unit {0})
  test_error s = (ok tt, record s { failed = true })

  abbrev pub assert_no_error : {A : Type 0} → Action (Testing W) A → Action (Testing W) (Unit {0})
  assert_no_error m = handle m (λ _. test_error) (λ _. pure tt)

  abbrev register_cleanup : String → Action (Testing W) (Unit {0})
  register_cleanup name s = (ok tt, record s { cleanups = name ∷ s.cleanups })

module _ {W : Type 0} (K : Kubernetes W) where
  -- The part that Apply and Delete share: the object, put into the namespace, and its resource.
  unfoldable pub with_object :
      String
      → (RestConfig → GroupVersion → ApiResource → Unstructured → Action W (Unit {0}))
      → String
      → Action (Testing W) (Unit {0})
  unfolding find_resource
  with_object ns act manifest =
      handle (lift (K.decode manifest)) (λ _. test_error)
        (λ decoded s. elim (find_resource decoded.1.kind s.kube.k8s.resource_list) [
          | none ↦ test_error s
          | some res ↦
              assert_no_error
                (in_kube (
                  in_world (
                    act s.kube.k8s.dynamic_client decoded.0 res
                      (record decoded.1 { namespace = ns }))))
                s
        ])

  unfoldable pub apply : String → String → Action (Testing W) (Unit {0})
  unfolding with_object
  apply ns manifest =
      with_object ns (λ client version res obj. K.create client (resource_of version res) ns obj)
        manifest

  unfoldable pub delete : String → String → Action (Testing W) (Unit {0})
  unfolding with_object
  delete ns manifest =
      with_object ns
        (λ client version res obj. K.delete client (resource_of version res) ns obj.name) manifest

  unfoldable pub apply_pvc : String → String → String → Bool → Action (Testing W) (Unit {0})
  unfolding pvc_manifest pvc_of apply
  apply_pvc ns name size use_storage_class_retain =
      apply ns (pvc_manifest (pvc_of name size use_storage_class_retain))

  unfoldable pub generate_ns_name : String → Action W String
  generate_ns_name test_name = do
    n ← K.rand_int
    pure ("csi-test-ns" <> ("-" <> (test_name <> ("-" <> itoa n))))

  abbrev create_and_check : String → Action (Testing W) (Unit {0})
  create_and_check name s =
      assert_no_error (in_kube (in_world (K.create_namespace s.kube.k8s.client_set name))) s

  -- The flag says to keep the namespaces.
  unfoldable pub create_test_namespace : Bool → String → Action (Testing W) String
  unfolding generate_ns_name
  create_test_namespace dont_clean_up test_name = do
    name ← in_kube (in_world (generate_ns_name test_name))
    create_and_check name
    in_kube (start_goroutine (events name))
    if not dont_clean_up then register_cleanup name else pure tt
    pure name

  -- The function that a test's clean-up calls for each namespace that was registered.
  unfoldable pub clean_up : String → Action (Testing W) (Unit {0})
  clean_up name s =
      assert_no_error (in_kube (in_world (K.delete_namespace s.kube.k8s.client_set name))) s
