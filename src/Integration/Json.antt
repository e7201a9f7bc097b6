-- ===== src/Integration/Json.antt =====
-- The JSON values that Python's `json.loads` makes, and the conversions of Python that
-- custom_components/urmet/models.py and events.py apply to them. A float is its 64-bit pattern.
use urmet_ha.Prelude.{
  ℕ, ◌*◌, ◌^◌, String, ◌≡◌, Bool, true, false, not, Option, none, some, ◌==◌, if◌then◌else◌,
  non_empty,
}
use package.text.Mathlib.Text.{◌==◌ as same_text}
use package.text.Mathlib.TextPositions.{eq_refl}
use urmet_ha.Domain.Errors
use urmet_ha.Domain.Errors.{Outcome, ok, raised}

pub data ℤ : Type 0 where
  pos : ℕ → ℤ
  negsuc : ℕ → ℤ

mutual
  pub data Json : Type 0 where
    null : Json
    boolean : Bool → Json
    integer : ℤ → Json
    float : ℕ → Json
    text : String → Json
    array : Items → Json
    object : Fields → Json

  pub data Items : Type 0 where
    nil : Items
    cons : Json → Items → Items

  -- The keys are in the order of the text.
  pub data Fields : Type 0 where
    end : Fields
    field : String → Json → Fields → Fields

-- `data.get(key)`
unfoldable pub get : String → Fields → Option Json
get key end = none
get key (field k v rest) = let found = get key rest in if same_text key k then some v else found

pub same_key : (key : String) → same_text key key ≡ true
same_key key = eq_refl key

-- What Python makes of a float or of a text that must be a number, and `str` of what is not a text.
pub record Conversions : Type 0 where
  pub float_to_int : ℕ → Outcome ℤ
  pub text_to_int : String → Outcome ℤ
  pub int_to_float : ℤ → Outcome ℕ
  pub text_to_float : String → Outcome ℕ
  pub float_is_zero : ℕ → Bool
  pub repr : Json → String

-- `0.0`
abbrev pub zero_float : ℕ
zero_float = 0

-- `1.0`
abbrev pub one_float : ℕ
one_float = 1023 * 2 ^ 52

module _ (py : Conversions) where
  -- `str(value)`
  unfoldable pub str : Json → String
  str (text s) = s
  str value = py.repr value

  -- `int(value)`
  unfoldable pub int : Json → Outcome ℤ
  int null = raised Errors.other_error
  int (boolean b) = ok (ℤ.pos (if b then 1 else 0))
  int (integer n) = ok n
  int (float x) = py.float_to_int x
  int (text s) = py.text_to_int s
  int (array xs) = raised Errors.other_error
  int (object fields) = raised Errors.other_error

  -- `float(value)`
  unfoldable pub to_float : Json → Outcome ℕ
  to_float null = raised Errors.other_error
  to_float (boolean b) = ok (if b then one_float else zero_float)
  to_float (integer n) = py.int_to_float n
  to_float (float x) = ok x
  to_float (text s) = py.text_to_float s
  to_float (array xs) = raised Errors.other_error
  to_float (object fields) = raised Errors.other_error

  -- `bool(value)`
  unfoldable pub truth : Json → Bool
  truth null = false
  truth (boolean b) = b
  truth (integer (ℤ.pos n)) = not (n == 0)
  truth (integer (ℤ.negsuc n)) = true
  truth (float x) = not (py.float_is_zero x)
  truth (text s) = non_empty s
  truth (array nil) = false
  truth (array (cons x xs)) = true
  truth (object end) = false
  truth (object (field k v rest)) = true

-- `data.get(key, default)`
unfoldable pub get_or : Json → String → Fields → Json
unfolding get
get_or default key fields = elim (get key fields) [ none ↦ default | some value ↦ value ]

-- `data[key]`
unfoldable pub require : String → Fields → Outcome Json
unfolding get
require key fields = elim (get key fields) [
  | none ↦ raised Errors.other_error
  | some value ↦ ok value
]

-- `isinstance(value, Mapping)`
unfoldable pub mapping : Json → Option Fields
mapping (object fields) = some fields
mapping value = none

-- What a loop over `value` that skips whatever is not a mapping goes through: the elements of a
-- list, nothing of the texts that a text or a dict yields, and a TypeError for the rest.
unfoldable pub elements : Json → Outcome Items
elements (array xs) = ok xs
elements (text s) = ok nil
elements (object fields) = ok nil
elements value = raised Errors.other_error
