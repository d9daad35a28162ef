-- ===== src/Integ/K8s.antt =====
-- internal/integ/k8s/k8s.go: the clients of a cluster, and the manifests and the secret that they
-- apply. A goroutine that they start is noted as a task; Events says what that of PrintEvents does.
use exoscale_csi_driver.Base.{
  String, not, Option, none, some, List, [], ◌∷◌, str_eq, if◌then◌else◌, find?, Action, pure, fail,
  lift, handle, ◌>>=◌, ◌>>◌, ok,
}
use exoscale_csi_driver.Integ.Text.{split_text, replace_all, is_blank}
use exoscale_csi_driver.Integ.Egoscale.{api_key_env_var, api_secret_env_var}
use exoscale_csi_driver.Integ.Kubernetes.{
  RestConfig, ApiResource, GroupVersion, GroupVersionResource, Unstructured, Secret, LogStream,
  Kubernetes,
}

-- `go k.PrintEvents(ns)`, and `go printLogs(pod, stream)`.
pub data Task : Type 0 where
  events : String → Task
  logs : String → LogStream → Task

pub record K8s : Type 0 where
  pub discovery_client : RestConfig
  pub client_set : RestConfig
  pub dynamic_client : RestConfig
  pub resource_list : List (List ApiResource)
  pub watched_namespaces : List String

-- The object behind the pointer, the goroutines started for it, and the world.
pub record Kube (W : Type 0) : Type 0 where
  pub k8s : K8s
  pub goroutines : List Task
  pub world : W

module _ {W A : Type 0} where
  abbrev pub in_world : Action W A → Action (Kube W) A
  in_world m s = ((m s.world).0, record s { world = (m s.world).1 })

  -- An error is logged, and the code goes on.
  abbrev pub log_error : Action W A → Action W (Unit {0})
  log_error m = handle m (λ _. pure tt) (λ _. pure tt)

abbrev pub start_goroutine : {W : Type 0} → Task → Action (Kube W) (Unit {0})
start_goroutine task s = (ok tt, record s { goroutines = task ∷ s.goroutines })

-- The body of the inner loop stands for that of both: the first resource of the kind.
unfoldable pub find_resource : String → List (List ApiResource) → Option ApiResource
unfolding find?
find_resource kind [] = none
find_resource kind (resources ∷ rest) =
    elim (find? (λ (r : ApiResource). str_eq r.kind kind) resources) [
      | some r ↦ some r
      | none ↦ find_resource kind rest
    ]

abbrev pub resource_of : GroupVersion → ApiResource → GroupVersionResource
resource_of version res = record { group_version = version; resource = res.name }

abbrev pub namespace_of : ApiResource → Unstructured → String
namespace_of res obj = if res.namespaced then obj.namespace else ""

abbrev doc_separator : String
doc_separator = "\n---\n"

abbrev driver_image : String
driver_image = "exoscale/csi-driver:latest"

abbrev pub secret_name : String
secret_name = "exoscale-credentials"

abbrev pub secret_namespace : String
secret_namespace = "kube-system"

abbrev pub credentials : String → String → Secret
credentials api_key api_secret = record {
  name = secret_name;
  namespace = secret_namespace;
  data_of = (api_key_env_var, api_key) ∷ (api_secret_env_var, api_secret) ∷ [];
  type = "Opaque";
}

module _ {W : Type 0} where
  abbrev pub set_resource_list : List (List ApiResource) → Action (Kube W) (Unit {0})
  set_resource_list list s = (ok tt, record s { k8s = record s.k8s { resource_list = list } })

  -- The loop over the documents of a file: blank ones are skipped, and an error ends it.
  unfoldable pub each_doc :
      (String → Action (Kube W) (Unit {0})) → List String → Action (Kube W) (Unit {0})
  unfolding is_blank
  each_doc body [] = pure tt
  each_doc body (doc ∷ docs) =
      let rest = each_doc body docs in if is_blank doc then rest else body doc >> rest

module _ {W : Type 0} (K : Kubernetes W) where
  unfoldable pub create_clients : String → Action W K8s
  create_clients kubeconfig = do
    client_config ← lift (K.client_config_from_bytes kubeconfig)
    loaded ← lift (K.client_config client_config)
    let config = record loaded { qps = 1; burst = 2 }
    discovery_client ← lift (K.new_discovery_client config)
    resource_list ← K.server_groups_and_resources discovery_client
    client_set ← lift (K.new_client_set config)
    dynamic_client ← lift (K.new_dynamic_client config)
    pure (record {
      discovery_client = discovery_client;
      client_set = client_set;
      dynamic_client = dynamic_client;
      resource_list = resource_list;
      watched_namespaces = [];
    })

  unfoldable pub update_resource_list : Action (Kube W) (Unit {0})
  update_resource_list s =
      handle (in_world (K.server_groups_and_resources s.k8s.discovery_client)) (λ _. pure tt)
        set_resource_list s

  -- The object of a manifest whose kind the server knows, applied.
  unfoldable pub apply_object :
      GroupVersion → Unstructured → ApiResource → Action (Kube W) (Unit {0})
  unfolding update_resource_list
  apply_object version obj res s =
      (do
        if res.namespaced then start_goroutine (events obj.namespace) else pure tt
        handle (in_world (K.get client gvr ns obj.name))
            (λ _. log_error (in_world (K.create client gvr ns obj)))
            (λ found. log_error (
              in_world (
                K.retry_on_conflict (
                  K.update client gvr ns
                    (record obj { resource_version = found.resource_version })))))
        update_resource_list)
        s
    where
      client : RestConfig
      client = s.k8s.dynamic_client

      gvr : GroupVersionResource
      gvr = resource_of version res

      ns : String
      ns = namespace_of res obj

  -- `applyManifest`
  unfoldable pub apply_doc : String → Action (Kube W) (Unit {0})
  unfolding find_resource apply_object
  apply_doc manifest = do
    decoded ← lift (K.decode manifest)
    (λ s. elim (find_resource decoded.1.kind s.k8s.resource_list) [
      | none ↦ (ok tt, s)
      | some res ↦ apply_object decoded.0 decoded.1 res s
    ])

  -- `deleteManifest`
  unfoldable pub delete_doc : String → Action (Kube W) (Unit {0})
  unfolding find_resource
  delete_doc manifest = do
    decoded ← lift (K.decode manifest)
    (λ s. elim (find_resource decoded.1.kind s.k8s.resource_list) [
      | none ↦ (ok tt, s)
      | some res ↦
          log_error
            (in_world (
              K.delete s.k8s.dynamic_client (resource_of decoded.0 res) (namespace_of res decoded.1)
                decoded.1.name))
            s
    ])

  unfoldable pub delete_manifest : String → Action (Kube W) (Unit {0})
  unfolding split_text each_doc delete_doc
  delete_manifest file = do
    content ← in_world (K.read_file file)
    each_doc delete_doc (split_text doc_separator content)

  -- `image` is the flag of that name.
  unfoldable pub with_image : String → String → String
  unfolding replace_all
  with_image image content =
      if not (str_eq image "") then replace_all driver_image image content else content

  unfoldable pub apply_manifest : String → String → Action (Kube W) (Unit {0})
  unfolding split_text with_image each_doc apply_doc
  apply_manifest image file = do
    content ← in_world (K.read_file file)
    each_doc apply_doc (split_text doc_separator (with_image image content))

  unfoldable pub apply_secret : String → String → Action (Kube W) (Unit {0})
  apply_secret api_key api_secret s =
      handle (in_world (K.get_secret client secret_namespace secret_name))
        (λ e.
          if not (K.is_not_found e)
          then fail e
          else in_world (K.create_secret client secret_namespace secret))
        (λ _. in_world (K.update_secret client secret_namespace secret)) s
    where
      client : RestConfig
      client = s.k8s.client_set

      secret : Secret
      secret = credentials api_key api_secret
