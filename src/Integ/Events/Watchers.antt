-- ===== src/Integ/Events/Watchers.antt =====
-- Which namespaces the goroutines of PrintEvents note, and which they watch.
use exoscale_csi_driver.Base.{
  ℕ, ◌+◌, ◌≤◌, String, ◌≡◌, refl, sym, ◌∙◌, subst, ◌⊎◌, inl, inr, Bool, true, false, ◌&&◌, List, [],
  ◌∷◌, ◌++◌, arith, str_eq, str_eq_iff, str_eq_refl, ltb, Bool-cases, any,
}
use exoscale_csi_driver.Integ.Events.{load, insert_key}
use exoscale_csi_driver.Integ.Events.Interleaving.{
  Stage, loading, storing, watching, finished, returned, Goroutine, System, advance_from, advance,
  started, initial, Step, start, run, Reach, here, next,
}

abbrev pub one_if : Bool → ℕ
one_if true = 1
one_if false = 0

-- How often a name stands in a list.
abbrev pub count : String → List String → ℕ
count ns [] = 0
count ns (x ∷ xs) = one_if (str_eq x ns) + count ns xs

-- Behind `Store`.
abbrev pub is_behind_store : Stage → Bool
is_behind_store watching = true
is_behind_store finished = true
is_behind_store _ = false

abbrev pub is_returned : Stage → Bool
is_returned returned = true
is_returned _ = false

-- How many goroutines for a namespace stand at such a stage.
abbrev pub standing : (Stage → Bool) → String → List Goroutine → ℕ
standing f ns [] = 0
standing f ns (g ∷ gs) = one_if (str_eq g.namespace ns && f g.stage) + standing f ns gs

standing-append :
    (f : Stage → Bool) (ns : String) (xs ys : List Goroutine)
    → standing f ns (xs ++ ys) ≡ standing f ns xs + standing f ns ys
standing-append f ns [] ys = omega arith
standing-append f ns (x ∷ xs) ys = omega (arith, standing-append f ns xs ys)

-- A key is there once if a goroutine is behind `Store`, and not at all if none is; and if one has
-- returned early there is one behind `Store`.
abbrev Agree : ℕ → ℕ → ℕ → Type 0
Agree keys stored early = (keys ≡ one_if (ltb 0 stored)) × ((early ≡ 0) ⊎ (1 ≤ stored))

load-count : (ns : String) (watched : List String) → load ns watched ≡ ltb 0 (count ns watched)
unfolding load any
load-count ns [] = refl
load-count ns (x ∷ xs) = elim (Bool-cases (str_eq x ns)) [
  | inl same ↦ rw same (ground arith)
  | inr other ↦ rw other (ground (arith, load-count ns xs))
]

insert_key-count :
    (ns : String) (watched : List String)
    → count ns watched ≤ 1
    → count ns (insert_key ns watched) ≡ 1
unfolding insert_key
insert_key-count ns watched small = elim (Bool-cases (load ns watched)) [
  | inl there ↦ rw there (ground (arith, load-count ns watched))
  | inr absent ↦ rw (absent, str_eq_refl ns) (ground (arith, load-count ns watched))
]

insert_key-count_other :
    (ns name : String) (watched : List String)
    → str_eq name ns ≡ false
    → count ns (insert_key name watched) ≡ count ns watched
unfolding insert_key
insert_key-count_other ns name watched other = elim (Bool-cases (load name watched)) [
  | inl there ↦ rw there refl
  | inr absent ↦ rw (absent, other) (omega arith)
]

-- One step of a goroutine for the namespace keeps the numbers in agreement, with `stored` and `early`
-- other goroutines for it.
advance_from-Agree :
    (stage : Stage) (ns : String) (watched : List String) (stored early : ℕ)
    → Agree
        (count ns watched)
        (one_if (is_behind_store stage) + stored)
        (one_if (is_returned stage) + early)
    → let next = advance_from stage ns watched in
      Agree
        (count ns next.0)
        (one_if (is_behind_store next.1) + stored)
        (one_if (is_returned next.1) + early)
unfolding advance_from
advance_from-Agree loading ns watched stored early h = elim (Bool-cases (load ns watched)) [
  | inl there ↦ rw there (h.0, inr (ground (arith, h.0, load-count ns watched, there)))
  | inr absent ↦ rw absent h
]
advance_from-Agree storing ns watched stored early h =
    (insert_key-count ns watched (ground (arith, h.0)) ∙ ground arith, inr (omega arith))
advance_from-Agree watching ns watched stored early h = h
advance_from-Agree finished ns watched stored early h = h
advance_from-Agree returned ns watched stored early h = h

advance_from-count_other :
    (stage : Stage) (ns name : String) (watched : List String)
    → str_eq name ns ≡ false
    → count ns (advance_from stage name watched).0 ≡ count ns watched
unfolding advance_from
advance_from-count_other storing ns name watched other =
    insert_key-count_other ns name watched other
advance_from-count_other loading ns name watched other = refl
advance_from-count_other watching ns name watched other = refl
advance_from-count_other finished ns name watched other = refl
advance_from-count_other returned ns name watched other = refl

-- The same for a goroutine for any namespace.
advance_from-Agree_any :
    (stage : Stage) (ns name : String) (watched : List String) (stored early : ℕ)
    → Agree
        (count ns watched)
        (one_if (str_eq name ns && is_behind_store stage) + stored)
        (one_if (str_eq name ns && is_returned stage) + early)
    → let next = advance_from stage name watched in
      Agree
        (count ns next.0)
        (one_if (str_eq name ns && is_behind_store next.1) + stored)
        (one_if (str_eq name ns && is_returned next.1) + early)
advance_from-Agree_any stage ns name watched stored early h = elim (Bool-cases (str_eq name ns)) [
  | inl same ↦
      subst
        (λ m.
          Agree (count ns (advance_from stage m watched).0)
            (one_if (str_eq m ns && is_behind_store (advance_from stage m watched).1) + stored)
            (one_if (str_eq m ns && is_returned (advance_from stage m watched).1) + early))
        (sym ((str_eq_iff name ns).0 same))
        (rw (str_eq_refl ns) (advance_from-Agree stage ns watched stored early (rw same at h)))
  | inr other ↦ rw (other, advance_from-count_other stage ns name watched other) (rw other at h)
]

Agree-eq :
    {keys stored stored' early early' : ℕ}
    → stored ≡ stored'
    → early ≡ early'
    → Agree keys stored early
    → Agree keys stored' early'
Agree-eq {keys} {early' = early'} e f h = subst (λ p. Agree keys p early') e (rw (← f) h)

Agrees : String → System → Type 0
Agrees ns s =
    Agree (count ns s.watched) (standing is_behind_store ns s.goroutines)
      (standing is_returned ns s.goroutines)

Step-Agrees : (ns : String) {s t : System} → Step s t → Agrees ns s → Agrees ns t
unfolding advance Agrees
Step-Agrees ns (start name s) h = Agree-eq (ground arith) (ground arith) h
Step-Agrees ns (run watched before behind g) h =
    let g' = (advance watched g).1 in
    let at = λ (f : Stage → Bool). standing f ns before + standing f ns behind in
    Agree-eq (omega (arith, standing-append is_behind_store ns before (g' ∷ behind)))
      (omega (arith, standing-append is_returned ns before (g' ∷ behind)))
      (advance_from-Agree_any g.stage ns g.namespace watched (at is_behind_store) (at is_returned) (
        Agree-eq (omega (arith, standing-append is_behind_store ns before (g ∷ behind)))
          (omega (arith, standing-append is_returned ns before (g ∷ behind))) h))

-- However the goroutines of PrintEvents are started and interleaved: a namespace is a key of
-- WatchedNamespaces, then once, exactly if one of its goroutines has noted it, which watches it or has
-- done so; and if one of its goroutines has returned early, then another one has noted it.
pub Reach-watched :
    (ns : String) {s : System}
    → Reach s
    → (count ns s.watched ≡ one_if (ltb 0 (standing is_behind_store ns s.goroutines)))
      × ((standing is_returned ns s.goroutines ≡ 0)
          ⊎ (1 ≤ standing is_behind_store ns s.goroutines))
unfolding Agrees
Reach-watched ns here = (refl, inl refl)
Reach-watched ns (next r step) = Step-Agrees ns step (Reach-watched ns r)

abbrev at_stage : String → Stage → Goroutine
at_stage ns stage = record { namespace = ns; stage = stage }

abbrev pub both_watching : String → System
both_watching ns = record {
  watched = ns ∷ [];
  goroutines = at_stage ns watching ∷ at_stage ns watching ∷ [];
}

-- Two goroutines that are started for the same namespace, whatever it is, can both come to watch it:
-- `Load` and `Store` are two operations, and both goroutines may load before one of them stores.
pub both_watching-Reach : (ns : String) → Reach (both_watching ns)
unfolding advance insert_key any
both_watching-Reach ns =
    let first : Goroutine = at_stage ns storing in
    let one_watching : Reach
        (record { watched = ns ∷ []; goroutines = at_stage ns watching ∷ first ∷ [] }) =
      next
        (next
          (next (next (next here (start ns initial)) (start ns _))
            (run [] [] (started ns ∷ []) (started ns)))
          (run [] (first ∷ []) [] (started ns)))
        (run [] [] (first ∷ []) first) in
    subst
      (λ watched. Reach (record {
        watched = watched;
        goroutines = at_stage ns watching ∷ at_stage ns watching ∷ [];
      }))
      (rw (str_eq_refl ns) refl)
      (next one_watching (run (ns ∷ []) (at_stage ns watching ∷ []) [] first))
