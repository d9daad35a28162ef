-- ===== src/Controller/Lifecycle/Distinct.antt =====
-- Lists of names without a repetition.
use exoscale_csi_driver.Base.{
  String, ◌≡◌, refl, sym, subst, ap, ◌∙◌, ◌≢◌, inl, inr, none, List, [], ◌∷◌, ◌++◌, str_eq,
  Bool-cases, ne_of_str_eq-false, find?,
}
use exoscale_csi_driver.Api.{BlockStorageVolume}
use exoscale_csi_driver.Api.Laws.{by_name, Adds}
use exoscale_csi_driver.Api.Names.{names, Thins, done, keep, drop}

-- The text is not in the list.
abbrev pub Misses : String → List String → Type 0
Misses n [] = Unit {0}
Misses n (m ∷ ns) = (m ≢ n) × Misses n ns

-- No two entries are equal.
abbrev pub Distinct : List String → Type 0
Distinct [] = Unit {0}
Distinct (n ∷ ns) = Misses n ns × Distinct ns

Misses-insert :
    (n m : String) (l r : List String) → m ≢ n → Misses n (l ++ r) → Misses n (l ++ m ∷ r)
Misses-insert n m [] r h k = (h, k)
Misses-insert n m (x ∷ l) r h (k, ks) = (k, Misses-insert n m l r h ks)

Distinct-insert :
    (m : String) (l r : List String) → Misses m (l ++ r) → Distinct (l ++ r) → Distinct (l ++ m ∷ r)
Distinct-insert m [] r h k = (h, k)
Distinct-insert m (x ∷ l) r (ne, h) (k, ks) =
    (Misses-insert x m l r (λ e. ne (sym e)) k, Distinct-insert m l r h ks)

by_name-Misses :
    (n : String) (vs : List BlockStorageVolume) → by_name n vs ≡ none → Misses n (names vs)
unfolding find?
by_name-Misses n [] h = tt
by_name-Misses n (v ∷ vs) h = elim (Bool-cases (str_eq v.name n)) [
  | inl e ↦ absurd (cc (rw e at h))
  | inr ne ↦ (ne_of_str_eq-false v.name n ne, by_name-Misses n vs (rw ne at h))
]

names-append : (l r : List BlockStorageVolume) → names (l ++ r) ≡ names l ++ names r
names-append [] r = refl
names-append (v ∷ l) r = ap (λ ns. v.name ∷ ns) (names-append l r)

-- A volume with a new name may be put in, and any volume taken away.
pub Adds-Distinct :
    (v : BlockStorageVolume) (before after : List BlockStorageVolume)
    → Adds v before after
    → by_name v.name before ≡ none
    → Distinct (names before)
    → Distinct (names after)
Adds-Distinct v before after (l, r, eb, ea) new distinct =
    let eb' : names before ≡ names l ++ names r = ap names eb ∙ names-append l r in
    subst Distinct (sym (ap names ea ∙ names-append l (v ∷ r))) (
      Distinct-insert v.name (names l) (names r)
        (subst (Misses v.name) eb' (by_name-Misses v.name before new))
        (subst Distinct eb' distinct))

Misses-Thins :
    (n : String) {before after : List String}
    → Thins before after
    → Misses n before
    → Misses n after
Misses-Thins n done h = tt
Misses-Thins n (keep m t) (h, k) = (h, Misses-Thins n t k)
Misses-Thins n (drop m t) (_, k) = Misses-Thins n t k

-- Names may be taken away.
pub Thins-Distinct :
    {before after : List String} → Thins before after → Distinct before → Distinct after
Thins-Distinct done h = tt
Thins-Distinct (keep m t) (h, k) = (Misses-Thins m t h, Thins-Distinct t k)
Thins-Distinct (drop m t) (_, k) = Thins-Distinct t k
