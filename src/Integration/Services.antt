-- ===== src/Integration/Services.antt =====
-- custom_components/urmet/services.py: which doorphone an action is aimed at. The text of a value in a
-- target is Python's, and the device registry and the config entries are Home Assistant's.
pub mod Target
use urmet_ha.Prelude.{
  ℕ, String, ◌≡◌, Bool, true, false, Option, none, some, List, [], ◌∷◌, if◌then◌else◌,
}
use text.Mathlib.Text.{◌==◌ as same_text}
use urmet_ha.Integration.Json
use urmet_ha.Integration.Json.{Json, Items, nil, cons, Conversions, str}

-- The ids of the loaded entries of the domain; the entries of a device, when it is known; and whether
-- an entry is one of the domain.
pub record House : Type 0 where
  pub loaded : List String
  pub entries_of : String → Option (List String)
  pub is_urmet : String → Bool

-- What a resolution comes to: an answer or a ServiceValidationError.
pub data Resolved (A : Type 0) : Type 0 where
  chosen : A → Resolved A
  refused : Resolved A

-- `ENTITY_MATCH_NONE`
abbrev pub match_none : String
match_none = "none"

-- The entries of a device that are of the domain.
unfoldable pub owned : (String → Bool) → List String → List String
owned is_urmet [] = []
owned is_urmet (id ∷ ids) = let rest = owned is_urmet ids in if is_urmet id then id ∷ rest else rest

-- `owned[0]` when it is the only one
sole_owned : List String → Resolved (Option String)
sole_owned (id ∷ []) = chosen (some id)
sole_owned _ = refused

-- The entry of a device that is named, from `dr.async_get(...)` on.
unfoldable pub entry_of_device : House → String → Resolved (Option String)
unfolding owned sole_owned
entry_of_device house device = elim (house.entries_of device) [
  | none ↦ refused
  | some entries ↦ sole_owned (owned house.is_urmet entries)
]

by_device : House → Resolved (Option String) → Resolved (Option String)
unfolding entry_of_device
by_device house refused = refused
by_device house (chosen none) = chosen none
by_device house (chosen (some device)) = entry_of_device house device

module _ (py : Conversions) where
  -- `_sole_device_id`, of a value that may be missing
  unfoldable pub sole_device_id : Option Json → Resolved (Option String)
  unfolding str
  sole_device_id (some (Json.text s)) =
      if same_text s match_none then chosen none else chosen (some s)
  sole_device_id (some (Json.array (cons x nil))) = chosen (some (str py x))
  sole_device_id (some (Json.array (cons x (cons y xs)))) = refused
  sole_device_id _ = chosen none

  -- `_targeted_entry_id`, on the values under `entry_id` and `device_id`
  unfoldable pub targeted_entry_id : House → Option Json → Option Json → Resolved (Option String)
  unfolding by_device sole_device_id
  targeted_entry_id house (some (Json.text entry)) device = chosen (some entry)
  targeted_entry_id house entry device = by_device house (sole_device_id device)

-- `_sole_entry`
unfoldable pub sole_entry : List String → Resolved String
sole_entry (entry ∷ []) = chosen entry
sole_entry _ = refused

-- The loop over the entries.
unfoldable pub find_entry : String → List String → Resolved String
find_entry id [] = refused
find_entry id (entry ∷ entries) =
    let rest = find_entry id entries in if same_text entry id then chosen entry else rest

aimed_at : List String → Resolved (Option String) → Resolved String
unfolding sole_entry find_entry
aimed_at loaded refused = refused
aimed_at loaded (chosen none) = sole_entry loaded
aimed_at loaded (chosen (some id)) = find_entry id loaded

-- Nothing is aimed at where nothing is set up.
aimed_if_any : List String → Resolved (Option String) → Resolved String
unfolding aimed_at
aimed_if_any [] target = refused
aimed_if_any (e ∷ es) target = aimed_at (e ∷ es) target

-- `_resolve_entry`
unfoldable pub resolve_entry : Conversions → House → Option Json → Option Json → Resolved String
unfolding aimed_if_any targeted_entry_id
resolve_entry py house entry device =
    aimed_if_any house.loaded (targeted_entry_id py house entry device)
