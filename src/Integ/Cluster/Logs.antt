-- ===== src/Integ/Cluster/Logs.antt =====
-- printPodsLogs and printLogs of internal/integ/cluster/utils.go.
use exoscale_csi_driver.Base.{String, ◌<>◌, List, [], ◌∷◌, split, Action, pure, handle, ◌>>◌, ok}
use exoscale_csi_driver.Integ.Kubernetes.{LogStream, Kubernetes}
use exoscale_csi_driver.Integ.K8s.{Task, logs, in_world}
use exoscale_csi_driver.Integ.Cluster.{Run, at_k8s, csi_namespace}

abbrev start_task : {W : Type 0} → Task → Action (Run W) (Unit {0})
start_task task s = (ok tt, record s { goroutines = task ∷ s.goroutines })

-- What ReadString('\n') returns without an error: a text behind the last newline is not printed.
complete_lines : List String → List String
complete_lines [] = []
complete_lines (_ ∷ []) = []
complete_lines (line ∷ next ∷ rest) = (line <> "\n") ∷ complete_lines (next ∷ rest)

module _ {W : Type 0} (K : Kubernetes W) where
  print_lines : String → List String → Action W (Unit {0})
  print_lines pod_name [] w = (ok tt, w)
  print_lines pod_name (line ∷ lines) w =
      print_lines pod_name lines (K.print (pod_name <> (": " <> line)) w)

  -- Both ends of the stream, io.EOF and another error, end the loop.
  unfoldable pub print_logs : String → LogStream → Action W (Unit {0})
  unfolding split complete_lines print_lines
  print_logs pod_name stream = print_lines pod_name (complete_lines (split b'\n' stream.text))

  -- The loop over the pods: one whose logs cannot be read is left out.
  unfoldable pub start_logs : String → List String → Action (Run W) (Unit {0})
  start_logs container [] = pure tt
  start_logs container (pod ∷ pods) =
      let rest = start_logs container pods in
      handle (at_k8s (λ s. in_world (K.stream_logs s.k8s.client_set csi_namespace pod container) s))
        (λ _. rest) (λ stream. start_task (logs pod stream) >> rest)

  unfoldable pub print_pods_logs : String → String → Action (Run W) (Unit {0})
  unfolding start_logs
  print_pods_logs label_selector container_name =
      handle
        (at_k8s (λ s. in_world (K.list_pods_with s.k8s.client_set csi_namespace label_selector) s))
        (λ _. pure tt) (start_logs container_name)
