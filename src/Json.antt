-- ===== src/Json.antt =====
-- Values of `Any`: what json.loads returns for a request, before anything has looked at it.
use subagent_governance.Base.{
  zero, Result, ok, err, Error, ℕ, Text, text_eq, Option, none, some, Bool, true, false, ◌&&◌, List,
  [], ◌∷◌, if◌then◌else◌, all, any,
}

mutual
  -- The members of an object, in order.
  pub data Fields : Type 0 where
    field : Text → Value → Fields → Fields
    end : Fields

  -- The elements of an array.
  pub data Items : Type 0 where
    cons : Value → Items → Items
    nil : Items

  -- `other` is a number that is negative or not whole.
  pub data Value : Type 0 where
    obj : Fields → Value
    arr : Items → Value
    str : Text → Value
    num : ℕ → Value
    bool : Bool → Value
    null : Value
    other : Value

unfoldable pub keys : Fields → List Text
keys Fields.end = []
keys (Fields.field k v fs) = k ∷ keys fs

unfoldable pub get_field : Text → Fields → Option Value
get_field k Fields.end = none
get_field k (Fields.field j v fs) = if text_eq j k then some v else get_field k fs

abbrev pub get_or_null : Option Value → Value
get_or_null none = Value.null
get_or_null (some v) = v

-- `value.get(k)` of a dictionary: None where the key is missing
unfoldable pub get : Text → Fields → Value
unfolding get_field
get k fs = get_or_null (get_field k fs)

abbrev pub mem_text : Text → List Text → Bool
mem_text k = any (λ j. text_eq j k)

-- `set(a) == set(b)`
unfoldable pub same_keys : List Text → List Text → Bool
same_keys ks ws = all (λ k. mem_text k ws) ks && all (λ k. mem_text k ks) ws

-- `_exact_fields`: the fields of a dictionary that has exactly the listed keys
unfoldable pub exact_fields : List Text → Value → Option Fields
unfolding same_keys keys
exact_fields wanted (Value.obj fs) = if same_keys (keys fs) wanted then some fs else none
exact_fields wanted _ = none

unfoldable pub values : Items → List Value
values Items.nil = []
values (Items.cons v vs) = v ∷ values vs

unfoldable pub items : List Value → Items
items [] = Items.nil
items (v ∷ vs) = Items.cons v (items vs)

unfoldable pub fields : List (Text × Value) → Fields
fields [] = Fields.end
fields ((k, v) ∷ kvs) = Fields.field k v (fields kvs)

-- `v in words`, a set of texts: a list or a dictionary is not hashable.
unfoldable pub is_member : List Text → Value → Result Bool
is_member ws (Value.str s) = ok (mem_text s ws)
is_member ws (Value.arr vs) = err Error.type_error
is_member ws (Value.obj fs) = err Error.type_error
is_member ws _ = ok false

-- `v == s` for a text s
abbrev pub is_word : Text → Value → Bool
is_word s (Value.str t) = text_eq t s
is_word s _ = false

-- `not v`
unfoldable pub is_falsy : Value → Bool
is_falsy Value.null = true
is_falsy (Value.bool false) = true
is_falsy (Value.num zero) = true
is_falsy (Value.str []) = true
is_falsy (Value.arr Items.nil) = true
is_falsy (Value.obj Fields.end) = true
is_falsy _ = false

-- The keys of a dictionary that are not in the list, and those of the list that it lacks.
unfoldable pub unknown_keys : List Text → Fields → List Text
unknown_keys wanted Fields.end = []
unknown_keys wanted (Fields.field k v fs) =
    if mem_text k wanted then unknown_keys wanted fs else k ∷ unknown_keys wanted fs

unfoldable pub missing_keys : List Text → Fields → List Text
unfolding keys
missing_keys [] fs = []
missing_keys (k ∷ ks) fs =
    if mem_text k (keys fs) then missing_keys ks fs else k ∷ missing_keys ks fs
