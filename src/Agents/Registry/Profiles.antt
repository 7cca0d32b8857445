-- ===== src/Agents/Registry/Profiles.antt =====
-- The profiles that AgentProfile of src/harness/agents/registry.py accepts.
use md_harness.Agents.Registry.{
  AgentProfile, required_text, required_positive, with_text, texts_of, some_texts, required_texts,
  required_bool, distinct, agent_profile, items_in, value_in, value_or, profile_from_mapping,
  text_items, payload,
}
use md_harness.Prelude.{
  not-true, Bool-cases, some_injective, and_left, and_right, non_empty, all, ltb, ◌==◌, ◌≡◌, refl,
  sym, inl, inr, ℕ, String, Bool, true, false, not, ◌&&◌, Option, none, some, List, [], ◌∷◌, nat_eq,
  string_eq,
}
use md_harness.Effects.{value_error, Error, return}
use md_harness.Effects.Checks.{checked, bound_ok}
use md_harness.Json.{
  Json, null, boolean, integer, decimal, string, array, object, Items, no_items, item, get_member,
}
use md_harness.Text.{is_blank}

abbrev filled : List String → Bool
filled texts = non_empty texts && all (λ text. not (text == "")) texts

-- Names and texts that are not blank, counts from 1, task types and tools that are texts with a
-- character, and no tool twice.
abbrev pub ValidProfile : AgentProfile → Type 0
ValidProfile p =
    (is_blank p.name ≡ false)
    × (ltb p.version 1 ≡ false)
    × (is_blank p.instructions ≡ false)
    × (is_blank p.model ≡ false)
    × (filled p.task_types ≡ true)
    × (filled p.tools ≡ true)
    × (distinct p.tools ≡ true)
    × (ltb p.max_steps 1 ≡ false)

return_injective : {A : Type 0} (a b : A) → return a ≡ return b → a ≡ b
return_injective a b h = cc

-- What a check that returned says.
text_returned :
    (value : Json) (e : Error) {s : String} → required_text value e ≡ return s → is_blank s ≡ false
text_returned (string t) e {s} h = elim (Bool-cases (is_blank t)) [
  | inl b ↦ cc (rw b at h)
  | inr b ↦ let same : return t ≡ return s = rw b at h in cc
]
text_returned null e {s} h = cc
text_returned (boolean b) e {s} h = cc
text_returned (integer b n) e {s} h = cc
text_returned (decimal t) e {s} h = cc
text_returned (array xs) e {s} h = cc
text_returned (object ms) e {s} h = cc

positive_returned :
    (value : Json) (e : Error) {n : ℕ} → required_positive value e ≡ return n → ltb n 1 ≡ false
positive_returned (integer false m) e {n} h = elim (Bool-cases (ltb m 1)) [
  | inl b ↦ cc (rw b at h)
  | inr b ↦ let same : return m ≡ return n = rw b at h in cc
]
positive_returned (integer true m) e {n} h = cc
positive_returned null e {n} h = cc
positive_returned (boolean b) e {n} h = cc
positive_returned (string t) e {n} h = cc
positive_returned (decimal t) e {n} h = cc
positive_returned (array xs) e {n} h = cc
positive_returned (object ms) e {n} h = cc

texts_filled :
    (values : Items) {ss : List String}
    → texts_of values ≡ some ss
    → all (λ text. not (text == "")) ss ≡ true
unfolding texts_of
texts_filled no_items {ss} h = rw (sym (some_injective [] ss h)) refl
texts_filled (item (string t) rest) {ss} h =
    by_rest (λ later e. texts_filled rest e) (texts_of rest) refl h
  where
    by_rest :
        ((later : List String)
          → texts_of rest ≡ some later
          → all (λ text. not (text == "")) later ≡ true)
        → (o : Option (List String)) → texts_of rest ≡ o
        → with_text t o ≡ some ss
        → all (λ text. not (text == "")) ss ≡ true
    by_rest ih none e k = cc
    by_rest ih (some later) e k = elim (Bool-cases (t == "")) [
      | inl b ↦ cc (rw b at k)
      | inr b ↦ rw (sym (some_injective (t ∷ later) ss (rw b at k)), b) (ih later e)
    ]
texts_filled (item null rest) {ss} h = cc
texts_filled (item (boolean b) rest) {ss} h = cc
texts_filled (item (integer b n) rest) {ss} h = cc
texts_filled (item (decimal t) rest) {ss} h = cc
texts_filled (item (array xs) rest) {ss} h = cc
texts_filled (item (object ms) rest) {ss} h = cc

texts_returned :
    (values : Items) (e : Error) {ss : List String}
    → required_texts values e ≡ return ss
    → filled ss ≡ true
texts_returned values e {ss} h = by_texts (texts_of values) refl h
  where
    by_texts :
        (o : Option (List String))
        → texts_of values ≡ o
        → some_texts o e ≡ return ss
        → filled ss ≡ true
    by_texts none same k = cc
    by_texts (some []) same k = cc
    by_texts (some (s ∷ later)) same k =
        let whole : s ∷ later ≡ ss = cc k in rw (sym whole) (texts_filled values same)

agent_profile-ValidProfile :
    (name version instructions : Json) (task_types tools : Items) (model steps enabled : Json)
    {p : AgentProfile}
    → agent_profile name version instructions task_types tools model steps enabled ≡ return p
    → ValidProfile p
unfolding agent_profile
agent_profile-ValidProfile name version instructions task_types tools model steps enabled {p} h =
    let (n, e1, h1) = bound_ok (required_text name _) _ h in
    let (v, e2, h2) = bound_ok (required_positive version _) _ h1 in
    let (i, e3, h3) = bound_ok (required_text instructions _) _ h2 in
    let (m, e4, h4) = bound_ok (required_text model _) _ h3 in
    let (types, e5, h5) = bound_ok (required_texts task_types _) _ h4 in
    let (names, e6, h6) = bound_ok (required_texts tools _) _ h5 in
    let (apart, h7) = checked (distinct names) _ _ h6 in
    let (s, e8, h8) = bound_ok (required_positive steps _) _ h7 in
    let (b, e9, h9) = bound_ok (required_bool enabled _) _ h8 in
    rw (sym (return_injective _ p h9)) (
      text_returned name _ e1,
      positive_returned version _ e2,
      text_returned instructions _ e3,
      text_returned model _ e4,
      texts_returned task_types _ e5,
      texts_returned tools _ e6,
      apart,
      positive_returned steps _ e8,
    )

texts_read :
    (texts : List String)
    → all (λ text. not (text == "")) texts ≡ true
    → texts_of (text_items texts) ≡ some texts
unfolding texts_of
texts_read [] h = refl
texts_read (t ∷ rest) h =
    let full = not-true (t == "") (and_left (not (t == "")) _ h) in
    rw (texts_read rest (and_right (not (t == "")) _ h), full) refl

texts_accepted :
    (texts : List String) (e : Error)
    → filled texts ≡ true
    → required_texts (text_items texts) e ≡ return texts
texts_accepted [] e h = cc
texts_accepted (t ∷ rest) e h = rw (texts_read (t ∷ rest) h) refl

payload_accepted : (p : AgentProfile) → ValidProfile p → profile_from_mapping (payload p) ≡ return p
unfolding profile_from_mapping agent_profile payload get_member
payload_accepted p (name, version, instructions, model, types, tools, apart, steps) =
    rw
      (
        name,
        version,
        instructions,
        model,
        texts_accepted p.task_types (value_error "agent task_types must be non-empty strings")
            types,
        texts_accepted p.tools (value_error "agent tools must be non-empty strings") tools,
        apart,
        steps,
      )
      refl

mapping-ValidProfile :
    (values : Json) {p : AgentProfile} → profile_from_mapping values ≡ return p → ValidProfile p
unfolding profile_from_mapping
mapping-ValidProfile (object given) {p} h =
    let (types, e1, h1) = bound_ok (items_in (get_member "task_types" given) _) _ h in
    let (tools, e2, h2) = bound_ok (items_in (get_member "tools" given) _) _ h1 in
    let (name, e3, h3) = bound_ok (value_in (get_member "name" given)) _ h2 in
    let (version, e4, h4) = bound_ok (value_in (get_member "version" given)) _ h3 in
    let (instructions, e5, h5) = bound_ok (value_in (get_member "instructions" given)) _ h4 in
    let (model, e6, h6) = bound_ok (value_in (get_member "model" given)) _ h5 in
    agent_profile-ValidProfile name version instructions types tools model
      (value_or (integer false 8) (get_member "max_steps" given))
      (value_or (boolean true) (get_member "enabled" given)) h6
mapping-ValidProfile null {p} h = cc
mapping-ValidProfile (boolean b) {p} h = cc
mapping-ValidProfile (integer b n) {p} h = cc
mapping-ValidProfile (decimal t) {p} h = cc
mapping-ValidProfile (string t) {p} h = cc
mapping-ValidProfile (array xs) {p} h = cc

-- What the payload of a valid profile's fingerprint decodes to is accepted and gives the profile
-- back, and whatever mapping is accepted gives a valid profile.
pub profile_from_mapping-payload :
    (p : AgentProfile)
    → (ValidProfile p → profile_from_mapping (payload p) ≡ return p)
      × ((values : Json) → profile_from_mapping values ≡ return p → ValidProfile p)
profile_from_mapping-payload p = (payload_accepted p, λ values h. mapping-ValidProfile values h)
