-- ===== src/Schema/Json.antt =====
-- automation/jobs/viz_schema.py: decoded JSON, as the validator reads it.
use hngh.Prelude.{
  String, ℤ, Option, none, some, List, [], ◌∷◌, Bool, true, false, if◌then◌else◌, str_eq, contains,
}

-- What `json.loads` returns. A float is known by its text and by whether it is 0.
mutual
  pub data Json : Type 0 where
    null : Json
    boolean : Bool → Json
    integer : ℤ → Json
    real : (is_zero : Bool) (digits : String) → Json
    text : String → Json
    array : Items → Json
    object : Fields → Json

  pub data Items : Type 0 where
    nil : Items
    cons : Json → Items → Items

  pub data Fields : Type 0 where
    end : Fields
    field : String → Json → Fields → Fields

-- An object's items; its keys are distinct.
abbrev pub Dict : Type 0
Dict = List (String × Json)

abbrev pub items : Items → List Json
items nil = []
items (cons v vs) = v ∷ items vs

abbrev pub fields : Fields → Dict
fields end = []
fields (field k v fs) = (k, v) ∷ fields fs

-- `d.get(key)`
unfoldable pub get : Dict → String → Option Json
get [] key = none
get ((k, v) ∷ d) key = let rest = get d key in if str_eq k key then some v else rest

-- `key in d`
unfoldable pub has_key : Dict → String → Bool
unfolding get
has_key d key = elim (get d key) [ none ↦ false | some v ↦ true ]

-- The types that the validator asks for.
pub data Kind : Type 0 where
  str_kind int_kind bool_kind list_kind dict_kind : Kind

-- `isinstance(value, want)`: a bool is an int.
unfoldable pub is_instance : Kind → Json → Bool
is_instance str_kind (text s) = true
is_instance int_kind (integer n) = true
is_instance int_kind (boolean b) = true
is_instance bool_kind (boolean b) = true
is_instance list_kind (array vs) = true
is_instance dict_kind (object fs) = true
is_instance _ _ = false

-- `isinstance(value, _SCALAR)`: null is none of these.
unfoldable pub is_scalar : Json → Bool
is_scalar null = false
is_scalar (array vs) = false
is_scalar (object fs) = false
is_scalar _ = true

-- `value in words`, for a tuple of texts.
unfoldable pub is_word : List String → Json → Bool
is_word words (text s) = contains words s
is_word words _ = false
