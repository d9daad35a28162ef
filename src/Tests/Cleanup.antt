-- ===== src/Tests/Cleanup.antt =====
-- Runs of the clean-up of internal/integ/cluster on a cluster in memory.
use exoscale_csi_driver.Base.{
  String, ◌<>◌, some, foreign_text, ◌≡◌, refl, sym, subst, ap, ◌∙◌, ◌≢◌, inl, inr, false, List, [],
  ◌∷◌, str_eq, Bool-cases, ne_of_str_eq-false, ok-injective, errorf, no_args, ok, err, fail, wrap,
}
use exoscale_csi_driver.Integ.Egoscale.{ApiKey}
use exoscale_csi_driver.Integ.K8s
use exoscale_csi_driver.Integ.K8s.{credentials}
use exoscale_csi_driver.Integ.Cluster.Secrets.{SecretLaws, Holds, create_csi_secret-installs}
use exoscale_csi_driver.Integ.Cluster
use exoscale_csi_driver.Integ.Cluster.{Run}
use exoscale_csi_driver.Integ.Cluster.Keys.{KeyLaws, Among}
use exoscale_csi_driver.Integ.Cluster.Cleanup.{tear_down_csi-attempts}
use exoscale_csi_driver.Integ.Cluster.Csi
use exoscale_csi_driver.Integ.Kubernetes.{Kubernetes}
use exoscale_csi_driver.Integ.Cluster.TearDown
use exoscale_csi_driver.Tests.Lab.{
  Lab, lab, cluster, run_start, kubernetes, egoscale, key_name, without_key,
}
use exoscale_csi_driver.Disk.Paths.{join_path}

-- Behind a key of another name.
kept-Among :
    (key x : ApiKey) (id : String) (keys : List ApiKey)
    → str_eq x.key id ≡ false
    → (Among key (without_key id keys) → Among key keys × (key.key ≢ id))
    → Among key (x ∷ without_key id keys)
    → Among key (x ∷ keys) × (key.key ≢ id)
kept-Among key x id keys other rest (inl e) = (inl e, rw e (ne_of_str_eq-false x.key id other))
kept-Among key x id keys other rest (inr n) = (inr (rest n).0, (rest n).1)

without_key-Among :
    (key : ApiKey) (id : String) (keys : List ApiKey)
    → Among key (without_key id keys)
    → Among key keys × (key.key ≢ id)
without_key-Among key id [] m = absurd m
without_key-Among key id (x ∷ keys) m = elim (Bool-cases (str_eq x.key id)) [
  | inl same ↦ let rest = without_key-Among key id keys (rw same at m) in (inr rest.0, rest.1)
  | inr other ↦ kept-Among key x id keys other (without_key-Among key id keys) (rw other at m)
]

abbrev key_laws : KeyLaws egoscale
key_laws = record {
  Has = λ w key. Among key w.keys;
  listed = λ ego w e key m.
      subst (Among key) (ok-injective (ap (λ p. p.0) e))
        (subst (λ t. Among key t.keys) (sym (ap (λ p. p.1) e)) m);
  deleted = λ ego id w e f key m.
      without_key-Among key id w.keys
        (subst (λ t. Among key t.keys) (sym (ap (λ p. p.1) e ∙ ap (λ p. p.1) f)) m);
  roles_listed = λ ego w key m. m;
  role_deleted = λ ego id w key m. m;
  waited = λ ego op w key m. m;
}

abbrev cleared : Run Lab
cleared = record run_start {
  world = record lab { keys = record { name = "other"; key = "k2" } ∷ [] };
}

-- What a client gets that makes a key in this cluster.
made_by :
    (ego name role : String) (w : Lab) {made : String × String} {w' : Lab}
    → egoscale.create_api_key ego name role w ≡ (ok made, w')
    → (made.0 ≡ "key-" <> name) × (w'.keys ≡ record { name = name; key = "key-" <> name } ∷ w.keys)
made_by ego name role w e =
    (sym (ap (λ p. p.0) (ok-injective (ap (λ p. p.0) e))), sym (ap (λ p. p.1.keys) e))

abbrev secret_laws : SecretLaws kubernetes egoscale key_laws
secret_laws = record {
  stored = λ w ns name. w.secret;
  created = λ client ns secret w e. sym (ap (λ p. p.1.secret) e);
  updated = λ client ns secret w e. sym (ap (λ p. p.1.secret) e);
  key_created = λ ego name role w e key m.
      let made = made_by ego name role w e in
      elim (subst (Among key) made.1 m) [
        | inl new ↦ inr (ap (λ k. k.key) new ∙ sym made.0)
        | inr old ↦ inl old
      ];
  key_made =
      λ ego name role w e. let made = made_by ego name role w e in rw (made.0, made.1) (inl refl);
  role_created = λ ego request w key m. m;
  slept = λ d w key m. m;
  got = λ client ns name w key. (λ m. m, λ m. m);
  creation_kept = λ client ns secret w key. (λ m. m, λ m. m);
  update_kept = λ client ns secret w key. (λ m. m, λ m. m);
}

-- Two old keys of the name are gone, and there is a new one.
abbrev installed : Run Lab
installed = record run_start {
  world = record lab {
    clock = 3;
    keys =
        record { name = key_name; key = "key-" <> key_name }
        ∷ record { name = "other"; key = "k2" }
        ∷ [];
    secret = some (credentials ("key-" <> key_name) "secret");
  };
}

installs : Csi.create_csi_secret kubernetes egoscale "/repo/" run_start ≡ (ok tt, installed)
unfolding Csi.create_csi_secret Csi.delete_api_key_and_role Csi.delete_api_keys Csi.delete_role
    Cluster.await_success Cluster.await_id K8s.apply_secret foreign_text
installs = refl

create_csi_secret-installs_example :
    (role : String) × (w₁ : Lab) × (w₂ : Lab) × (made : String × String) × (egoscale.create_api_key
        cluster.ego key_name role w₁
      ≡ (ok made, w₂))
    × Holds kubernetes egoscale key_laws secret_laws made installed.world
    × Among (record { name = key_name; key = made.0 }) installed.world.keys
    × ((key : ApiKey) → Among key installed.world.keys → key.name ≡ key_name → key.key ≡ made.0)
create_csi_secret-installs_example =
    create_csi_secret-installs kubernetes egoscale key_laws secret_laws "/repo/" run_start installs

-- Each deletion of a manifest fails: all are tried, and the clean-up of the keys runs behind them.
abbrev unreadable : Kubernetes Lab
unreadable = record kubernetes { read_file = λ path. fail (errorf path no_args) }

tear_down_csi-attempts_example : TearDown.tear_down_csi unreadable egoscale "/repo/" run_start ≡ (
  err (
      wrap "errors while deleting manifests: %w"
        (errorf "/repo/deployment/latest/volume-snapshot-class.yaml" no_args)),
  cleared,
)
unfolding K8s.delete_manifest Csi.delete_api_key_and_role Csi.delete_api_keys Csi.delete_role
    Cluster.await_success Cluster.await_id join_path
tear_down_csi-attempts_example = tear_down_csi-attempts unreadable "/repo/" egoscale run_start tt
