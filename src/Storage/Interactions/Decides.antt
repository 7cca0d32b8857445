-- ===== src/Storage/Interactions/Decides.antt =====
-- `validate_response` decides whether a response conforms, under a schema that `validate_schema` accepts.
use md_harness.Json.Equality.{Floats}
use md_harness.Storage.Interactions.Schemas.Children.{IsSchema, enum_list, object_keywords}
use md_harness.Effects.Checks.{◌>>◌, checked, bound_ok}
use md_harness.Effects.{return}
use md_harness.Storage.Interactions.Schemas.{is_object_type, validate_schema}
use md_harness.Prelude.{
  Option-cases, all, String, ◌≡◌, refl, sym, ap, ◌∙◌, ◌↔◌, inl, inr, true, some,
}
use md_harness.Json.{Json, object, Members, no_members, member, get_member}
use md_harness.Storage.Interactions.Responses.{
  check_type, required_names, names_key, properties_of, check_extra, check_fields, check_enum,
  if_property, validate_response, validate_values,
}
use md_harness.Storage.Interactions.Conforms.{property, Fits, HasFields, Conforms, Values}
use md_harness.Storage.Interactions.Keywords.{
  type_sound, type_complete, object_typed, required_iff, properties_same, extra_iff, enum_iff,
  property_valid, properties_exist,
}

module _ (f : Floats) where
  Fits-iff :
      (ms : Members) (v : Json)
      → IsSchema (object ms)
      → ((check_type (get_member "type" ms) v >> check_enum f (get_member "enum" ms) v) ≡ return tt)
        ↔ Fits f (object ms) v
  Fits-iff ms v valid =
      let (into, back) = enum_iff f (get_member "enum" ms) v (enum_list ms valid) in
      (
        λ h.
            let (u, typed, listed) =
              bound_ok (check_type (get_member "type" ms) v)
                (λ _. check_enum f (get_member "enum" ms) v) h in
            (type_sound (get_member "type" ms) v typed, into listed),
        λ (fit : Fits f (object ms) v).
            rw (type_complete (get_member "type" ms) v fit.0.0 fit.0.1 fit.0.2) (back fit.1),
      )

  fields_sound :
      (ms rs ps : Members)
      → IsSchema (object ms)
      → is_object_type (get_member "type" ms) ≡ true
      → check_fields ms rs ≡ return ps
      → ((k : String) → property k (object ms) ≡ get_member k ps) × HasFields f (object ms) rs
  unfolding check_fields
  fields_sound ms rs ps valid typed h =
      let (qs, e, h1) = bound_ok (properties_of (get_member "properties" ms)) _ h in
      let (names, named, h2) = bound_ok (required_names (get_member "required" ms)) _ h1 in
      let (complete, h3) = checked (all (names_key rs) names) _ _ h2 in
      let (u, closed, last) = bound_ok (check_extra ms qs rs) (λ (_ : Unit {0}). return qs) h3 in
      let (asked, named', required) =
        required_iff (get_member "required" ms) rs (object_keywords ms valid typed).1 in
      let same = properties_same ms qs e in
      let final : qs ≡ ps = cc in
      let agree : names ≡ asked = cc (named, named') in
      (
        λ k. same k ∙ ap (get_member k) final,
        (required.0 (rw agree at complete), (extra_iff ms qs rs same).0 closed),
      )

  mutual
    unfolding validate_response Conforms validate_schema

    response_sound :
        (s v : Json) → IsSchema s → validate_response f s v ≡ return tt → Conforms f s v
    response_sound (object ms) (object rs) valid h =
        let (u, typed, h1) = bound_ok (check_type (get_member "type" ms) (object rs)) _ h in
        let (w, listed, h2) = bound_ok (check_enum f (get_member "enum" ms) (object rs)) _ h1 in
        let (ps, fields, values) = bound_ok (check_fields ms rs) (λ p. validate_values f p rs) h2 in
        let named = object_typed (get_member "type" ms) rs typed in
        let (same, has) = fields_sound ms rs ps valid named fields in
        (
          (
            type_sound (get_member "type" ms) (object rs) typed,
            (enum_iff f (get_member "enum" ms) (object rs) (enum_list ms valid)).0 listed,
          ),
          has,
          Values-sound ms ps same (λ k c. property_valid ms k c valid named) rs values,
        )
    response_sound (object ms) v valid h = (Fits-iff ms v valid).0 h
    response_sound s v valid h = cc

    Values-sound :
        (ms ps : Members)
        → ((k : String) → property k (object ms) ≡ get_member k ps)
        → ((k : String) (c : Json) → property k (object ms) ≡ some c → IsSchema c)
        → (rs : Members) → validate_values f ps rs ≡ return tt
        → Values f (object ms) rs
    Values-sound ms ps same valid no_members h = tt
    Values-sound ms ps same valid (member k v rest) h =
        let (u, here, later) =
          bound_ok (if_property f (get_member k ps) (λ s. validate_response f s v))
            (λ _. validate_values f ps rest) h in
        (
          λ c e.
              let found : get_member k ps ≡ some c = sym (same k) ∙ e in
              response_sound c v (valid k c e) (rw found at here),
          Values-sound ms ps same valid rest later,
        )

  fields_complete :
      (ms rs : Members)
      → IsSchema (object ms)
      → is_object_type (get_member "type" ms) ≡ true
      → HasFields f (object ms) rs
      → (ps : Members) × (check_fields ms rs ≡ return ps)
        × ((k : String) → property k (object ms) ≡ get_member k ps)
  unfolding check_fields
  fields_complete ms rs valid typed has =
      let (mapping, _) = object_keywords ms valid typed in
      let (ps, e) = properties_exist (get_member "properties" ms) mapping in
      let (asked, named, required) =
        required_iff (get_member "required" ms) rs (object_keywords ms valid typed).1 in
      let same = properties_same ms ps e in
      (ps, rw (e, named, required.1 has.0, (extra_iff ms ps rs same).1 has.1) refl, same)

  mutual
    unfolding validate_response Conforms validate_schema

    response_complete :
        (s v : Json) → IsSchema s → Conforms f s v → validate_response f s v ≡ return tt
    response_complete (object ms) (object rs) valid conforms =
        let fit : Fits f (object ms) (object rs) = conforms.0 in
        let typed = type_complete (get_member "type" ms) (object rs) fit.0.0 fit.0.1 fit.0.2 in
        let named = object_typed (get_member "type" ms) rs typed in
        let listed = (enum_iff f (get_member "enum" ms) (object rs) (enum_list ms valid)).1 fit.1 in
        let (ps, fields, same) = fields_complete ms rs valid named conforms.1 in
        rw (typed, listed, fields)
          (Values-complete ms ps same (λ k c. property_valid ms k c valid named) rs conforms.2)
    response_complete (object ms) v valid conforms = (Fits-iff ms v valid).1 conforms
    response_complete s v valid conforms = cc

    Values-complete :
        (ms ps : Members)
        → ((k : String) → property k (object ms) ≡ get_member k ps)
        → ((k : String) (c : Json) → property k (object ms) ≡ some c → IsSchema c)
        → (rs : Members) → Values f (object ms) rs
        → validate_values f ps rs ≡ return tt
    Values-complete ms ps same valid no_members h = refl
    Values-complete ms ps same valid (member k v rest) h = elim (Option-cases (get_member k ps)) [
      | inl absent ↦ rw absent (Values-complete ms ps same valid rest h.1)
      | inr (c, found) ↦
          let here = same k ∙ found in
          rw (found, response_complete c v (valid k c here) (h.0 c here))
            (Values-complete ms ps same valid rest h.1)
    ]

-- Under a schema that `validate_schema` accepts, `validate_response` returns for exactly the responses
-- that conform to it.
pub validate_response_iff :
    (f : Floats) (s v : Json)
    → validate_schema s ≡ return tt
    → (validate_response f s v ≡ return tt) ↔ Conforms f s v
validate_response_iff f s v valid = (response_sound f s v valid, response_complete f s v valid)
