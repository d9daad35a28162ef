-- ===== src/Integ/Events/Interleaving.antt =====
-- PrintEvents of internal/integ/k8s/k8s.go as the goroutines run it: `Load` and `Store` are atomic
-- each, and between the two other goroutines run.
use exoscale_csi_driver.Base.{
  String, ◌≡◌, refl, inl, inr, List, [], ◌∷◌, ◌++◌, if◌then◌else◌, Bool-cases,
}
use exoscale_csi_driver.Integ.Kubernetes.{Kubernetes}
use exoscale_csi_driver.Integ.K8s.{Kube}
use exoscale_csi_driver.Integ.Events.{load, insert_key, print_events}

-- Where a goroutine stands: before `Load`, before `Store`, in the watch behind it, behind the one event
-- of the watch or the end of the context, or behind the early return.
pub data Stage : Type 0 where
  loading storing watching finished returned : Stage

pub record Goroutine : Type 0 where
  pub namespace : String
  pub stage : Stage

-- The keys of WatchedNamespaces, and the goroutines.
pub record System : Type 0 where
  pub watched : List String
  pub goroutines : List Goroutine

-- The next step of a goroutine: an atomic operation on the map, or the end of the watch.
unfoldable pub advance_from : Stage → String → List String → List String × Stage
unfolding load insert_key
advance_from loading ns watched = (watched, if load ns watched then returned else storing)
advance_from storing ns watched = (insert_key ns watched, watching)
advance_from watching ns watched = (watched, finished)
advance_from finished ns watched = (watched, finished)
advance_from returned ns watched = (watched, returned)

unfoldable pub advance : List String → Goroutine → List String × Goroutine
unfolding advance_from
advance watched g =
    let next = advance_from g.stage g.namespace watched in (next.0, record g { stage = next.1 })

abbrev pub started : String → Goroutine
started ns = record { namespace = ns; stage = loading }

abbrev pub initial : System
initial = record { watched = []; goroutines = [] }

pub data Step : System → System → Type 0 where
  start : (ns : String) (s : System) → Step s (record s { goroutines = started ns ∷ s.goroutines })
  run :
      (watched : List String) (before behind : List Goroutine) (g : Goroutine)
      → Step
          (record { watched = watched; goroutines = before ++ g ∷ behind })
          (record {
            watched = (advance watched g).0;
            goroutines = before ++ (advance watched g).1 ∷ behind;
          })

pub data Reach : System → Type 0 where
  here : Reach initial
  next : {s t : System} → Reach s → Step s t → Reach t

module _ {W : Type 0} (K : Kubernetes W) where
  -- A call that no other goroutine interrupts leaves the map as two steps of its goroutine do.
  pub print_events-advance :
      (ns : String) (s : Kube W)
      → (print_events K ns s).1.k8s.watched_namespaces
        ≡ (let first = advance s.k8s.watched_namespaces (started ns) in advance first.0 first.1).0
  unfolding print_events advance insert_key
  print_events-advance ns s = elim (Bool-cases (load ns s.k8s.watched_namespaces)) [
    | inl there ↦ rw there refl
    | inr new ↦ rw (new, new) refl
  ]
