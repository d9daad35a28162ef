-- ===== src/Helpers/ExoscaleId.antt =====
-- The identifiers `zone/uuid` that the driver hands to the orchestrator, written by `exoscaleID`
-- and read by `getExoscaleID`.
use text.Mathlib.TextLemmas.{cons-append, nil-append}
use exoscale_csi_driver.Base.{
  String, ◌<>◌, Char, ◌≡◌, refl, sym, subst, ap, ◌∙◌, ◌↔◌, false, List, [], ◌∷◌, has_char, split,
  split_single, split-append, join, HasNo, join-split, split-HasNo, and_then-eq_ok, Result, ok,
}
use exoscale_csi_driver.Helpers.{exoscale_id, get_exoscale_id, id_of_parts}

abbrev slash : Char
slash = "/"

slash-append : (s : String) → "/" <> s ≡ String.◌∷◌ slash s
slash-append s = cons-append slash "" s ∙ ap (String.◌∷◌ slash) (nil-append s)

module _ (parse_uuid : String → Result String) where
  -- A zone and an identifier without a slash are read back from the identifier that they make,
  -- if the UUID is in the form in which the parser returns it.
  pub get_exoscale_id-exoscale_id :
      (zone id : String)
      → has_char b'/' zone ≡ false
      → has_char b'/' id ≡ false
      → parse_uuid id ≡ ok id
      → get_exoscale_id parse_uuid (exoscale_id zone id) ≡ ok (zone, id)
  unfolding get_exoscale_id exoscale_id
  get_exoscale_id-exoscale_id zone id hz hi hp = rw (slash-append id) (
      rw (split-append b'/' slash zone id refl hz, split_single b'/' id hi)
        (unfold id_of_parts in rw hp))

  id_of_parts-eq_ok :
      (parts : List String) (zone id : String)
      → id_of_parts parse_uuid parts ≡ ok (zone, id)
      → (raw : String) × (parts ≡ zone ∷ raw ∷ []) × (parse_uuid raw ≡ ok id)
  unfolding id_of_parts
  id_of_parts-eq_ok [] zone id h = cc
  id_of_parts-eq_ok (z ∷ []) zone id h = cc
  id_of_parts-eq_ok (z ∷ i ∷ []) zone id h =
      let (u, e, p) = and_then-eq_ok (parse_uuid i) (λ u. ok (z, u)) h in (i, cc p, cc (p, e))
  id_of_parts-eq_ok (z ∷ i ∷ _ ∷ r) zone id h = cc

  -- What is read was written: an identifier that is accepted consists of the zone, a slash and a
  -- text that parses to the UUID, and neither part holds a slash.
  pub get_exoscale_id-eq_ok :
      (exo_id zone id : String)
      → get_exoscale_id parse_uuid exo_id ≡ ok (zone, id)
      → (raw : String) × (exo_id ≡ exoscale_id zone raw)
        × (parse_uuid raw ≡ ok id)
        × (has_char b'/' zone ≡ false)
        × (has_char b'/' raw ≡ false)
  unfolding get_exoscale_id exoscale_id
  get_exoscale_id-eq_ok exo_id zone id h =
      let (raw, e, p) = id_of_parts-eq_ok (split b'/' exo_id) zone id h in
      let parts : HasNo b'/' (zone ∷ raw ∷ []) = subst (HasNo b'/') e (split-HasNo b'/' exo_id) in
      (
        raw,
        sym (join-split slash exo_id)
            ∙ ap (join slash) e
            ∙ ap (λ t. zone <> t) (sym (slash-append raw)),
        p,
        parts.0,
        parts.1.0,
      )

  get_exoscale_id-of_parts :
      (zone raw id : String)
      → has_char b'/' zone ≡ false
      → has_char b'/' raw ≡ false
      → parse_uuid raw ≡ ok id
      → get_exoscale_id parse_uuid (exoscale_id zone raw) ≡ ok (zone, id)
  unfolding get_exoscale_id exoscale_id
  get_exoscale_id-of_parts zone raw id hz hr hp = rw (slash-append raw) (
      rw (split-append b'/' slash zone raw refl hz, split_single b'/' raw hr)
        (unfold id_of_parts in rw hp))

  -- getExoscaleID reads a zone and a UUID exactly from a text that exoscaleID writes of the zone and
  -- of a text that parses to the UUID, neither of which holds a slash.
  pub get_exoscale_id_iff :
      (exo_id zone id : String)
      → (get_exoscale_id parse_uuid exo_id ≡ ok (zone, id)) ↔ (
          (raw : String) × (exo_id ≡ exoscale_id zone raw)
          × (parse_uuid raw ≡ ok id)
          × (has_char b'/' zone ≡ false)
          × (has_char b'/' raw ≡ false))
  get_exoscale_id_iff exo_id zone id = (
    get_exoscale_id-eq_ok exo_id zone id,
    λ parts.
        subst (λ t. get_exoscale_id parse_uuid t ≡ ok (zone, id)) (sym parts.1)
          (get_exoscale_id-of_parts zone parts.0 id parts.3 parts.4 parts.2),
  )
