-- ===== src/Integ/Cluster/Waiting.antt =====
-- What awaitSuccess has done when it returns.
use exoscale_csi_driver.Base.{
  String, ◌≡◌, refl, sym, subst, ap, ◌∙◌, inl, inr, none, some, Option-cases, Action, pure, fail,
  ◌>>=◌, >>=-ok_elim, handle-invariant, ok,
}
use exoscale_csi_driver.Api.{Operation}
use exoscale_csi_driver.Integ.Egoscale.{Egoscale}
use exoscale_csi_driver.Integ.K8s.{log_error}
use exoscale_csi_driver.Integ.Cluster.{Run, at_ego, await_id, await_success}

abbrev pub with_world : {W : Type 0} → Run W → W → Run W
with_world s w = record s { world = w }

module _ {W : Type 0} (E : Egoscale W) (m : String → Action W Operation) (s : Run W) where
  abbrev reference_of : Operation → Action (Run W) String
  reference_of finished_op = elim finished_op.reference [ some id ↦ pure id | none ↦ pure "" ]

  abbrev finish : Operation → Action (Run W) String
  finish op = at_ego (λ ego. E.wait ego op) >>= reference_of

  reference_of-keeps : (op : Operation) (t : Run W) → (reference_of op t).1 ≡ t
  reference_of-keeps op t = elim (Option-cases op.reference) [
    | inl nil ↦ rw nil
    | inr (id, e) ↦ rw e
  ]

  -- A wait that succeeds has made the call, and waited for its operation.
  pub await_success-ok_elim :
      {s' : Run W} {C : Type 0}
      → await_success E (at_ego m) s ≡ (ok tt, s')
      → ((op done : Operation) (w₁ w₂ : W)
          → m s.cluster.ego s.world ≡ (ok op, w₁)
          → E.wait s.cluster.ego op w₁ ≡ (ok done, w₂)
          → s' ≡ with_world s w₂
          → C)
      → C
  unfolding await_success await_id
  await_success-ok_elim {s'} {C} h k =
      >>=-ok_elim (await_id E (at_ego m)) (λ _. pure tt) s h
        λ id s₃ awaited h₃. >>=-ok_elim (at_ego m) finish s awaited λ op s₁ called h₁.
          >>=-ok_elim (at_ego (λ ego. E.wait ego op)) reference_of s₁ h₁ λ done s₂ waited h₂.
            let w₁ = (m s.cluster.ego s.world).1 in
            let moved : s₁ ≡ with_world s w₁ = sym (ap (λ p. p.1) called) in
            let waits : at_ego (λ ego. E.wait ego op) (with_world s w₁) ≡ (ok done, s₂) =
              subst (λ t. at_ego (λ ego. E.wait ego op) t ≡ (ok done, s₂)) moved waited in
            k op done w₁ (E.wait s.cluster.ego op w₁).1 (ap (λ r. (r, w₁)) (ap (λ p. p.0) called))
              (ap (λ r. (r, (E.wait s.cluster.ego op w₁).1)) (ap (λ p. p.0) waits))
              (sym (ap (λ p. p.1) h₃)
                ∙ (sym (ap (λ p. p.1) h₂)
                    ∙ (reference_of-keeps done s₂ ∙ sym (ap (λ p. p.1) waits))))

  -- What the call and every wait keep, the whole keeps, whatever its result is; and it leaves the
  -- object alone.
  abbrev pub Keeps : (W → Type 0) → Run W → Type 0
  Keeps P t = (t.cluster ≡ s.cluster) × P t.world

  pub await_id-Keeps :
      (P : W → Type 0)
      → P (m s.cluster.ego s.world).1
      → ((op : Operation) (w : W) → P w → P (E.wait s.cluster.ego op w).1)
      → Keeps P (await_id E (at_ego m) s).1
  unfolding await_id
  await_id-Keeps P called waits =
      handle-invariant (Keeps P) (at_ego m) fail finish s (refl, called) (λ _ t p. p)
        (λ op t p.
          handle-invariant (Keeps P) (at_ego (λ ego. E.wait ego op)) fail reference_of t
            (p.0, waited op t p) (λ _ u q. q)
            (λ done u q. subst (Keeps P) (sym (reference_of-keeps done u)) q))
    where
      waited : (op : Operation) (t : Run W) → Keeps P t → P (E.wait t.cluster.ego op t.world).1
      waited op t p = rw p.0 (waits op t.world p.1)

  pub await_success-Keeps :
      (P : W → Type 0)
      → P (m s.cluster.ego s.world).1
      → ((op : Operation) (w : W) → P w → P (E.wait s.cluster.ego op w).1)
      → Keeps P (log_error (await_success E (at_ego m)) s).1
  unfolding await_success
  await_success-Keeps P called waits =
      handle-invariant (Keeps P) (await_success E (at_ego m)) (λ _. pure tt) (λ _. pure tt) s
        (handle-invariant (Keeps P) (await_id E (at_ego m)) fail (λ _. pure tt) s
          (await_id-Keeps P called waits) (λ _ t p. p) (λ _ t p. p))
        (λ _ t p. p) (λ _ t p. p)
