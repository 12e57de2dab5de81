-- ===== src/Python/Value.antt =====
-- Values of the dynamic language, as JSON yields them, with the built-in conversions.
use bbjsensescada.Common.{
  ◌%◌, ◌^◌, Bool, true, false, not, String, Option, none, some, List, [], ◌∷◌, eqb, if◌then◌else◌,
  ◌==◌, string_eq,
}
use bbjsensescada.Common.Int.{ℤ, pos, int_eq}
use bbjsensescada.Python.Exceptions.{
  Result, ok, err, value_error, type_error, key_error, attribute_error, ◌>>=◌,
}
use bbjsensescada.Python.Text.{codes, parse_int}
use bbjsensescada.Python.Float.{Float, Arithmetic, of_ℤ, truncate}

mutual
  pub data Value : Type 0 where
    null : Value
    boolean : Bool → Value
    int : ℤ → Value
    float : Float → Value
    str : String → Value
    arr : Items → Value
    obj : Fields → Value

  -- a dict in insertion order
  pub data Fields : Type 0 where
    end : Fields
    field : String → Value → Fields → Fields

  pub data Items : Type 0 where
    nil : Items
    cons : Value → Items → Items

-- `str(v)` and `repr(v)` of numbers and containers.
abbrev pub Repr : Type 0
Repr = Value → String

abbrev pub find : String → Fields → Option Value
find k end = none
find k (field j v fs) = if k == j then some v else find k fs

-- `d.get(k)`
abbrev pub get : String → Value → Result (Option Value)
get k (obj fs) = ok (find k fs)
get k _ = err (attribute_error "object has no attribute 'get'")

abbrev pub or_else : Value → Option Value → Value
or_else d none = d
or_else d (some v) = v

-- `d.get(k, default)`
abbrev pub get_or : String → Value → Value → Result Value
get_or k d v = do o ← get k v; ok (or_else d o)

abbrev require : String → Option Value → Result Value
require k none = err (key_error k)
require k (some v) = ok v

-- `d[k]` at a text k
abbrev pub item : String → Value → Result Value
item k (obj fs) = require k (find k fs)
item k _ = err (type_error "object is not subscriptable by a text")

abbrev is_zero : Float → Bool
is_zero x = eqb (x.bits % 2 ^ 63) 0

-- `bool(v)`
unfoldable pub truthy : Value → Bool
truthy null = false
truthy (boolean b) = b
truthy (int n) = not (n == pos 0)
truthy (float x) = not (is_zero x)
truthy (str s) = not (s == "")
truthy (arr nil) = false
truthy (arr (cons v vs)) = true
truthy (obj end) = false
truthy (obj (field k v fs)) = true

-- `v or default`
abbrev pub or_default : Value → Value → Value
or_default d v = if truthy v then v else d

of_parsed : Option ℤ → Result ℤ
of_parsed none = err (value_error "invalid literal for int() with base 10")
of_parsed (some n) = ok n

-- `int(v)`
unfoldable pub to_int : Value → Result ℤ
unfolding of_parsed parse_int truncate
to_int null = err (type_error "int() argument must not be 'NoneType'")
to_int (boolean b) = ok (if b then pos 1 else pos 0)
to_int (int n) = ok n
to_int (float x) = truncate x
to_int (str s) = of_parsed (parse_int (codes s))
to_int (arr vs) = err (type_error "int() argument must not be 'list'")
to_int (obj fs) = err (type_error "int() argument must not be 'dict'")

of_read : Option Float → Result Float
of_read none = err (value_error "could not convert string to float")
of_read (some x) = ok x

-- `float(v)`
unfoldable pub to_float : Arithmetic → Value → Result Float
unfolding of_read of_ℤ
to_float A null = err (type_error "float() argument must not be 'NoneType'")
to_float A (boolean b) = of_ℤ (if b then pos 1 else pos 0)
to_float A (int n) = of_ℤ n
to_float A (float x) = ok x
to_float A (str s) = of_read (A.of_text s)
to_float A (arr vs) = err (type_error "float() argument must not be 'list'")
to_float A (obj fs) = err (type_error "float() argument must not be 'dict'")

-- `str(v)`
unfoldable pub to_str : Repr → Value → String
to_str R null = "None"
to_str R (boolean true) = "True"
to_str R (boolean false) = "False"
to_str R (str s) = s
to_str R v = R v

abbrev items_list : Items → List Value
items_list nil = []
items_list (cons v vs) = v ∷ items_list vs

abbrev letters : String → List Value
letters String.[] = []
letters (String.◌∷◌ c s) = str (String.◌∷◌ c String.[]) ∷ letters s

abbrev keys : Fields → List Value
keys end = []
keys (field k v fs) = str k ∷ keys fs

-- What `for x in v` runs through.
abbrev pub elements : Value → Result (List Value)
elements (arr vs) = ok (items_list vs)
elements (str s) = ok (letters s)
elements (obj fs) = ok (keys fs)
elements _ = err (type_error "object is not iterable")
