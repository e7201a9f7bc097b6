-- ===== src/Integration/Services/Target.antt =====
-- services.py: an action is never aimed at a doorphone that its target does not name.
use urmet_ha.Prelude.{
  String, ◌≡◌, ◌≢◌, refl, sym, ap, ◌∙◌, ◌⊎◌, inl, inr, Option, none, some, List, [], ◌∷◌, ◌++◌,
  if◌then◌else◌, Bool, true, false, Bool-cases, Option-cases, arith,
}
use text.Mathlib.Text.{◌==◌ as same_text}
use text.Mathlib.TextEquality.{eq_iff}
use urmet_ha.Integration.Json.{Json, Items, nil, cons, Conversions, str}
use urmet_ha.Integration.Services.{
  House, Resolved, chosen, refused, targeted_entry_id, sole_entry, find_entry, aimed_at,
  aimed_if_any, resolve_entry, match_none, sole_device_id, owned, sole_owned, by_device,
  entry_of_device,
}

-- The entry stands among them.
abbrev pub IsLoaded : String → List String → Type 0
IsLoaded id entries = (front : List String) × (back : List String) × (entries ≡ front ++ id ∷ back)

abbrev the : Resolved String → String
the (chosen e) = e
the refused = ""

find_entry-found :
    (id : String) (entries : List String) (e : String)
    → find_entry id entries ≡ chosen e
    → (e ≡ id) × IsLoaded e entries
unfolding find_entry
find_entry-found id [] e h = cc
find_entry-found id (x ∷ entries) e h = elim (Bool-cases (same_text x id)) [
  | inl same ↦
      let e_is : e ≡ x =
        sym (ap the (ap (λ b. if b then chosen x else find_entry id entries) (sym same) ∙ h)) in
      (e_is ∙ (eq_iff x id).0 same, ([], entries, ap (λ y. y ∷ entries) (sym e_is)))
  | inr other ↦
      let rest =
        find_entry-found id entries e
          (ap (λ b. if b then chosen x else find_entry id entries) (sym other) ∙ h) in
      (rest.0, (x ∷ rest.1.0, rest.1.1, ap (◌∷◌ x) rest.1.2))
]

sole_entry-found :
    (loaded : List String) (e : String) → sole_entry loaded ≡ chosen e → loaded ≡ e ∷ []
unfolding sole_entry
sole_entry-found [] e h = cc
sole_entry-found (x ∷ []) e h = ap (λ y. y ∷ []) (ap the h)
sole_entry-found (x ∷ y ∷ loaded) e h = cc

aimed_at-found :
    (loaded : List String) (target : Resolved (Option String)) (e : String)
    → aimed_at loaded target ≡ chosen e
    → ((target ≡ chosen (some e)) × IsLoaded e loaded)
      ⊎ ((target ≡ chosen none) × (loaded ≡ e ∷ []))
unfolding aimed_at
aimed_at-found loaded refused e h = cc
aimed_at-found loaded (chosen none) e h = inr (refl, sole_entry-found loaded e h)
aimed_at-found loaded (chosen (some id)) e h =
    let found = find_entry-found id loaded e h in
    inl (ap (λ i. chosen (some i)) (sym found.0), found.1)

aimed_if_any-found :
    (loaded : List String) (target : Resolved (Option String)) (e : String)
    → aimed_if_any loaded target ≡ chosen e
    → ((target ≡ chosen (some e)) × IsLoaded e loaded)
      ⊎ ((target ≡ chosen none) × (loaded ≡ e ∷ []))
unfolding aimed_if_any
aimed_if_any-found [] target e h = cc
aimed_if_any-found (x ∷ loaded) target e h = aimed_at-found (x ∷ loaded) target e h

-- The devices that a target names, every one: a text other than Home Assistant's "none" is one, a list
-- is those of its values, and anything else is none.
module _ (py : Conversions) where
  all_of : Items → List String
  all_of nil = []
  all_of (cons x xs) = str py x ∷ all_of xs

  unfoldable pub devices_named : Option Json → List String
  unfolding all_of
  devices_named (some (Json.text s)) = if same_text s match_none then [] else s ∷ []
  devices_named (some (Json.array xs)) = all_of xs
  devices_named _ = []

  sole_device_id-named :
      (device : Option Json) (d : String)
      → sole_device_id py device ≡ chosen (some d)
      → devices_named device ≡ d ∷ []
  unfolding sole_device_id devices_named all_of
  sole_device_id-named none d h = cc
  sole_device_id-named (some Json.null) d h = cc
  sole_device_id-named (some (Json.boolean b)) d h = cc
  sole_device_id-named (some (Json.integer i)) d h = cc
  sole_device_id-named (some (Json.float f)) d h = cc
  sole_device_id-named (some (Json.text s)) d h = ground arith
  sole_device_id-named (some (Json.array nil)) d h = cc
  sole_device_id-named (some (Json.array (cons x nil))) d h = ground arith
  sole_device_id-named (some (Json.array (cons x (cons y xs)))) d h = cc
  sole_device_id-named (some (Json.object o)) d h = cc

  sole_device_id-unnamed :
      (device : Option Json) → sole_device_id py device ≡ chosen none → devices_named device ≡ []
  unfolding sole_device_id devices_named all_of
  sole_device_id-unnamed none h = refl
  sole_device_id-unnamed (some Json.null) h = refl
  sole_device_id-unnamed (some (Json.boolean b)) h = refl
  sole_device_id-unnamed (some (Json.integer i)) h = refl
  sole_device_id-unnamed (some (Json.float f)) h = refl
  sole_device_id-unnamed (some (Json.text s)) h = ground arith
  sole_device_id-unnamed (some (Json.array nil)) h = refl
  sole_device_id-unnamed (some (Json.array (cons x nil))) h = cc
  sole_device_id-unnamed (some (Json.array (cons x (cons y xs)))) h = cc
  sole_device_id-unnamed (some (Json.object o)) h = refl

-- Not one of these entries is of the domain.
unfoldable pub AreForeign : (String → Bool) → List String → Type 0
AreForeign is_urmet [] = Unit {0}
AreForeign is_urmet (id ∷ ids) = (is_urmet id ≡ false) × AreForeign is_urmet ids

-- The entry is the one of the domain among them.
abbrev pub IsOnlyOne : (String → Bool) → String → List String → Type 0
IsOnlyOne is_urmet e ids =
    (front : List String) × (back : List String) × (ids ≡ front ++ e ∷ back)
    × (is_urmet e ≡ true)
    × AreForeign is_urmet front
    × AreForeign is_urmet back

module _ (is_urmet : String → Bool) where
  owned-none : (ids : List String) → owned is_urmet ids ≡ [] → AreForeign is_urmet ids
  unfolding owned AreForeign
  owned-none [] h = tt
  owned-none (id ∷ ids) h = elim (Bool-cases (is_urmet id)) [
    | inl ours ↦ ground (arith, ours)
    | inr foreign ↦ (foreign, owned-none ids (ground (arith, foreign)))
  ]

  owned-one :
      (ids : List String) (e : String) → owned is_urmet ids ≡ e ∷ [] → IsOnlyOne is_urmet e ids
  unfolding owned AreForeign
  owned-one [] e h = cc
  owned-one (id ∷ ids) e h = elim (Bool-cases (is_urmet id)) [
    | inl ours ↦
        let same : id ≡ e = ground (arith, ours) in
        let rest = owned-none ids (ground (arith, ours)) in
        ([], ids, ap (λ i. i ∷ ids) same, ap is_urmet (sym same) ∙ ours, tt, rest)
    | inr foreign ↦
        let (front, back, split, ours, before, behind) =
          owned-one ids e (ground (arith, foreign)) in
        (id ∷ front, back, ap (◌∷◌ id) split, ours, (foreign, before), behind)
  ]

sole_owned-one : (ids : List String) (e : String) → sole_owned ids ≡ chosen (some e) → ids ≡ e ∷ []
unfolding sole_owned
sole_owned-one [] e h = cc
sole_owned-one (id ∷ []) e h = ground arith
sole_owned-one (id ∷ id' ∷ ids) e h = cc

entry_of_device-one :
    (house : House) (device e : String)
    → entry_of_device house device ≡ chosen (some e)
    → (ids : List String) × (house.entries_of device ≡ some ids) × IsOnlyOne house.is_urmet e ids
unfolding entry_of_device
entry_of_device-one house device e h = elim (Option-cases (house.entries_of device)) [
  | inl unknown ↦ ground (arith, unknown)
  | inr (ids, known) ↦
      let alone : sole_owned (owned house.is_urmet ids) ≡ chosen (some e) =
        ground (arith, known, h) in
      (
        ids,
        known,
        owned-one house.is_urmet ids e (sole_owned-one (owned house.is_urmet ids) e alone),
      )
]

sole_owned-named : (ids : List String) → sole_owned ids ≢ chosen none
unfolding sole_owned
sole_owned-named [] h = cc
sole_owned-named (id ∷ []) h = cc
sole_owned-named (id ∷ id' ∷ ids) h = cc

entry_of_device-named :
    (house : House) (device : String) → entry_of_device house device ≢ chosen none
unfolding entry_of_device
entry_of_device-named house device h = elim (Option-cases (house.entries_of device)) [
  | inl unknown ↦ ground (arith, unknown)
  | inr (ids, known) ↦ sole_owned-named (owned house.is_urmet ids) (ground (arith, known, h))
]

-- Not by a text under `entry_id`.
abbrev pub is_text : Option Json → Bool
is_text (some (Json.text s)) = true
is_text _ = false

-- How a target may name the entry: under `entry_id`, or, with no text there, by the one device that it
-- names, which is known and is of that entry and of no other of the domain.
pub data Names (py : Conversions) (house : House) (entry device : Option Json) (e : String)
    : Type 0 where
  by_entry : entry ≡ some (Json.text e) → Names py house entry device e
  by_its_device :
      (d : String) (ids : List String)
      → is_text entry ≡ false
      → devices_named py device ≡ d ∷ []
      → house.entries_of d ≡ some ids
      → IsOnlyOne house.is_urmet e ids
      → Names py house entry device e

-- The target names nothing: no entry and no device.
abbrev pub NamesNone : Conversions → Option Json → Option Json → Type 0
NamesNone py entry device = (is_text entry ≡ false) × (devices_named py device ≡ [])

module _ (py : Conversions) (house : House) where
  by_device-Names :
      (entry device : Option Json) (e : String)
      → is_text entry ≡ false
      → by_device house (sole_device_id py device) ≡ chosen (some e)
      → Names py house entry device e
  unfolding by_device
  by_device-Names entry device e bare h = by_answer (sole_device_id py device) refl h
    where
      by_answer :
          (named : Resolved (Option String))
          → sole_device_id py device ≡ named
          → by_device house named ≡ chosen (some e)
          → Names py house entry device e
      by_answer refused is_named h' = cc
      by_answer (chosen none) is_named h' = cc
      by_answer (chosen (some d)) is_named h' =
          let (ids, known, alone) = entry_of_device-one house d e h' in
          by_its_device d ids bare (sole_device_id-named py device d is_named) known alone

  by_device-NamesNone :
      (device : Option Json)
      → by_device house (sole_device_id py device) ≡ chosen none
      → devices_named py device ≡ []
  unfolding by_device
  by_device-NamesNone device h = by_answer (sole_device_id py device) refl h
    where
      by_answer :
          (named : Resolved (Option String))
          → sole_device_id py device ≡ named
          → by_device house named ≡ chosen none
          → devices_named py device ≡ []
      by_answer refused is_named h' = cc
      by_answer (chosen none) is_named h' = sole_device_id-unnamed py device is_named
      by_answer (chosen (some d)) is_named h' = elim (entry_of_device-named house d h') [ ]

  targeted-Names :
      (entry device : Option Json) (e : String)
      → targeted_entry_id py house entry device ≡ chosen (some e)
      → Names py house entry device e
  unfolding targeted_entry_id
  targeted-Names none device e h = by_device-Names none device e refl h
  targeted-Names (some (Json.text s)) device e h = by_entry (ground arith)
  targeted-Names (some Json.null) device e h = by_device-Names (some Json.null) device e refl h
  targeted-Names (some (Json.boolean b)) device e h =
      by_device-Names (some (Json.boolean b)) device e refl h
  targeted-Names (some (Json.integer i)) device e h =
      by_device-Names (some (Json.integer i)) device e refl h
  targeted-Names (some (Json.float f)) device e h =
      by_device-Names (some (Json.float f)) device e refl h
  targeted-Names (some (Json.array a)) device e h =
      by_device-Names (some (Json.array a)) device e refl h
  targeted-Names (some (Json.object o)) device e h =
      by_device-Names (some (Json.object o)) device e refl h

  targeted-NamesNone :
      (entry device : Option Json)
      → targeted_entry_id py house entry device ≡ chosen none
      → NamesNone py entry device
  unfolding targeted_entry_id
  targeted-NamesNone none device h = (refl, by_device-NamesNone device h)
  targeted-NamesNone (some (Json.text s)) device h = cc
  targeted-NamesNone (some Json.null) device h = (refl, by_device-NamesNone device h)
  targeted-NamesNone (some (Json.boolean b)) device h = (refl, by_device-NamesNone device h)
  targeted-NamesNone (some (Json.integer i)) device h = (refl, by_device-NamesNone device h)
  targeted-NamesNone (some (Json.float f)) device h = (refl, by_device-NamesNone device h)
  targeted-NamesNone (some (Json.array a)) device h = (refl, by_device-NamesNone device h)
  targeted-NamesNone (some (Json.object o)) device h = (refl, by_device-NamesNone device h)

-- Whatever doorphone an action resolves to is loaded, and either the target names it, by its entry or
-- as the one doorphone of the one device it names, or the target names neither an entry nor a device
-- and no other doorphone is set up. A target of several devices, a device that is unknown or is of no
-- doorphone or of several, an entry that is not loaded: each is refused.
pub resolve_entry-named :
    (py : Conversions) (house : House) (entry device : Option Json) (e : String)
    → resolve_entry py house entry device ≡ chosen e
    → (Names py house entry device e × IsLoaded e house.loaded)
      ⊎ (NamesNone py entry device × (house.loaded ≡ e ∷ []))
unfolding resolve_entry
resolve_entry-named py house entry device e h =
    elim (aimed_if_any-found house.loaded (targeted_entry_id py house entry device) e h) [
      | inl (named, loaded) ↦ inl (targeted-Names py house entry device e named, loaded)
      | inr (unnamed, alone) ↦ inr (targeted-NamesNone py house entry device unnamed, alone)
    ]
