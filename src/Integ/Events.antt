-- ===== src/Integ/Events.antt =====
-- printEvent and PrintEvents of internal/integ/k8s/k8s.go.
pub mod Interleaving
pub mod Watchers
use exoscale_csi_driver.Base.{
  zero, suc, String, Bool, true, false, Option, none, some, List, [], ◌∷◌, str_eq, if◌then◌else◌,
  any, Action, pure, lift, proceed, handle, ◌>>=◌, ◌>>◌, nil_dereference, ok, panic,
}
use exoscale_csi_driver.Integ.Kubernetes.{
  RestConfig, Event, WatchType, added, modified, other_watch_type, WatchEvent, Kubernetes,
}
use exoscale_csi_driver.Integ.K8s.{K8s, Kube, in_world}

-- The sync.Map WatchedNamespaces, as the list of its keys.
unfoldable pub load : String → List String → Bool
unfolding any
load ns watched = any (λ other. str_eq other ns) watched

-- Store of a key that is there already keeps the one key.
unfoldable pub insert_key : String → List String → List String
unfolding load
insert_key ns watched = if load ns watched then watched else ns ∷ watched

abbrev pub store : {W : Type 0} → String → Action (Kube W) (Unit {0})
store ns s = (
  ok tt,
  record s { k8s = record s.k8s { watched_namespaces = insert_key ns s.k8s.watched_namespaces } },
)

abbrev shows : WatchType → Bool
shows added = true
shows modified = true
shows other_watch_type = false

module _ {W : Type 0} (K : Kubernetes W) where
  -- The flag of `log_event` says whether the event is a warning.
  unfoldable pub print_event : Event → Action W (Unit {0})
  print_event event w =
      if str_eq event.type "Warning"
      then (ok tt, K.log_event true event w)
      else if str_eq event.type "Normal"
      then (ok tt, K.log_event false event w)
      else (ok tt, w)

  unfoldable pub print_list : List Event → Action W (Unit {0})
  unfolding print_event
  print_list [] = pure tt
  print_list (event ∷ events) = let rest = print_list events in print_event event >> rest

  -- What the `select` receives: nothing at the end of the context, or one event of the watch.
  unfoldable pub print_received : Option WatchEvent → Action W (Unit {0})
  unfolding print_event
  print_received none = pure tt
  print_received (some received) =
      if shows received.type
      then (elim received.event [ some event ↦ print_event event | none ↦ pure tt ])
      else pure tt

  -- An error of Watch is logged only, and the watch that is read behind it is a nil interface.
  unfoldable pub show_events : RestConfig → String → Action W (Unit {0})
  unfolding print_list print_received
  show_events client ns = do
    listed ← K.list_events client ns
    print_list listed.0
    watch ← handle (K.watch_events client ns) (λ _. lift (panic nil_dereference)) pure
    received ← K.receive watch
    print_received received

  unfoldable pub print_events : String → Action (Kube W) (Unit {0})
  unfolding load insert_key show_events
  print_events ns s =
      if load ns s.k8s.watched_namespaces
      then (ok tt, s)
      else (do store ns; in_world (show_events s.k8s.client_set ns)) s
