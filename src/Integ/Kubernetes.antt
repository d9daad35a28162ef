-- ===== src/Integ/Kubernetes.antt =====
-- What the integration tests use of k8s.io/client-go and k8s.io/apimachinery, over the state of the
-- world. A client is the configuration that it was made from.
use exoscale_csi_driver.Base.{ℕ, String, Bool, Option, List, ℤ, Error, Result, Action}

pub record RestConfig : Type 0 where
  pub host : String
  pub qps : ℕ
  pub burst : ℕ

-- metav1.APIResource
pub record ApiResource : Type 0 where
  pub name : String
  pub kind : String
  pub namespaced : Bool

-- schema.GroupVersion and schema.GroupVersionResource
pub record GroupVersion : Type 0 where
  pub group : String
  pub version : String

pub record GroupVersionResource : Type 0 where
  pub group_version : GroupVersion
  pub resource : String

-- unstructured.Unstructured: the fields that are read or set, and all the others.
pub record Unstructured : Type 0 where
  pub kind : String
  pub name : String
  pub namespace : String
  pub resource_version : String
  pub rest : String

-- v1.Secret
pub record Secret : Type 0 where
  pub name : String
  pub namespace : String
  pub data_of : List (String × String)
  pub type : String

-- v1.Event, and watch.Event with an event as its object
pub record Event : Type 0 where
  pub type : String
  pub name : String
  pub message : String
  pub namespace : String

pub data WatchType : Type 0 where
  added modified other_watch_type : WatchType

pub record WatchEvent : Type 0 where
  pub type : WatchType
  pub event : Option Event

-- Of apps/v1.Deployment: *Spec.Replicas and Status.ReadyReplicas.
pub record Deployment : Type 0 where
  pub replicas : Option ℤ
  pub ready_replicas : ℤ

-- The status of an apps/v1.DaemonSet.
pub record DaemonSetStatus : Type 0 where
  pub desired_number_scheduled : ℤ
  pub current_number_scheduled : ℤ

-- What the log stream of a container delivers until it ends, and whether it ends with an error.
pub record LogStream : Type 0 where
  pub text : String
  pub failed : Bool

pub record Kubernetes (W : Type 0) : Type 0 where
  -- clientcmd.NewClientConfigFromBytes and ClientConfig
  pub client_config_from_bytes : String → Result String
  pub client_config : String → Result RestConfig
  -- discovery.NewDiscoveryClientForConfig, kubernetes.NewForConfig and dynamic.NewForConfig
  pub new_discovery_client : RestConfig → Result RestConfig
  pub new_client_set : RestConfig → Result RestConfig
  pub new_dynamic_client : RestConfig → Result RestConfig
  -- the second result of ServerGroupsAndResources
  pub server_groups_and_resources : RestConfig → Action W (List (List ApiResource))
  -- Decode of the YAML serializer, into an unstructured object
  pub decode : String → Result (GroupVersion × Unstructured)
  -- Resource(gvr).Namespace(ns) of the dynamic client: Get, Create, Update and Delete
  pub get : RestConfig → GroupVersionResource → String → String → Action W Unstructured
  pub create : RestConfig → GroupVersionResource → String → Unstructured → Action W (Unit {0})
  pub update : RestConfig → GroupVersionResource → String → Unstructured → Action W (Unit {0})
  pub delete : RestConfig → GroupVersionResource → String → String → Action W (Unit {0})
  -- retry.RetryOnConflict(retry.DefaultRetry, fn)
  pub retry_on_conflict : Action W (Unit {0}) → Action W (Unit {0})
  -- errors.IsNotFound
  pub is_not_found : Error → Bool
  pub get_secret : RestConfig → String → String → Action W Secret
  pub create_secret : RestConfig → String → Secret → Action W (Unit {0})
  pub update_secret : RestConfig → String → Secret → Action W (Unit {0})
  -- Events(ns).List: the items, and the error; Watch; and what the `select` on the watch receives,
  -- with `none` for the end of the context
  pub list_events : RestConfig → String → Action W (List Event × Option Error)
  pub watch_events : RestConfig → String → Action W ℕ
  pub receive : ℕ → Action W (Option WatchEvent)
  pub get_deployment : RestConfig → String → String → Action W Deployment
  pub get_daemon_set : RestConfig → String → String → Action W DaemonSetStatus
  -- Pods(ns).List: the names of the items, and the error
  pub list_pods : RestConfig → String → Action W (List String × Option Error)
  -- the same with a label selector, and Stream of GetLogs for a pod and a container
  pub list_pods_with : RestConfig → String → String → Action W (List String)
  pub stream_logs : RestConfig → String → String → String → Action W LogStream
  pub delete_pod : RestConfig → String → String → Action W (Unit {0})
  pub create_namespace : RestConfig → String → Action W (Unit {0})
  pub delete_namespace : RestConfig → String → Action W (Unit {0})
  -- os.ReadFile
  pub read_file : String → Action W String
  -- time.Sleep
  pub sleep : ℤ → W → W
  -- rand.Int
  pub rand_int : Action W ℤ
  -- slog of an event
  pub log_event : Bool → Event → W → W
  -- fmt.Print
  pub print : String → W → W
