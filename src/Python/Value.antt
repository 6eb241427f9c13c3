-- ===== src/Python/Value.antt =====
-- The objects that the validators receive: what JSON decodes to. Keys are texts, and a mapping is
-- an association list whose first binding of a key counts, so that each Python `dict` is one.
use foundry_pay.Base.{
  ℕ, suc, Bool, true, false, ◌&&◌, Option, none, some, List, [], ◌∷◌, ◌==◌, if◌then◌else◌, Text,
  text_eq, text_in,
}

-- `negsuc n` is -(n + 1).
pub data ℤ : Type 0 where
  pos : ℕ → ℤ
  negsuc : ℕ → ℤ

-- A float is given by its bit pattern: the validators refuse every float by its type.
mutual
  pub data Value : Type 0 where
    null : Value
    bool : Bool → Value
    int : ℤ → Value
    float : ℕ → Value
    str : Text → Value
    arr : Items → Value
    obj : Fields → Value

  pub data Items : Type 0 where
    nil : Items
    cons : Value → Items → Items

  pub data Fields : Type 0 where
    end : Fields
    field : Text → Value → Fields → Fields

-- `m[key]`, `m.get(key)`
unfoldable pub get : Text → Fields → Option Value
unfolding text_eq
get k end = none
get k (field j v m) = if text_eq j k then some v else get k m

-- `key in m`
unfoldable pub has : Text → Fields → Bool
unfolding get
has k m = elim (get k m) [ none ↦ false | some _ ↦ true ]

-- `required - keys` is empty.
unfoldable pub has_all : List Text → Fields → Bool
unfolding has
has_all [] m = true
has_all (k ∷ ks) m = has k m && has_all ks m

-- `keys - allowed` is empty.
unfoldable pub only : List Text → Fields → Bool
unfolding text_in
only ks end = true
only ks (field j v m) = text_in j ks && only ks m

-- The mapping without one key, in its order.
unfoldable pub without : Text → Fields → Fields
unfolding text_eq
without k end = end
without k (field j v m) = let rest = without k m in if text_eq j k then rest else field j v rest

unfoldable pub size : Fields → ℕ
unfolding text_eq
size end = 0
size (field k v m) = suc (size m)

abbrev int_eq : ℤ → ℤ → Bool
int_eq (pos a) (pos b) = a == b
int_eq (negsuc a) (negsuc b) = a == b
int_eq _ _ = false

abbrev of_bool : Bool → ℕ
of_bool true = 1
of_bool false = 0

-- Python's `==`, but for floats, which are compared by bits. A Boolean equals the number that it
-- stands for, and two mappings are equal if they bind as many keys to equal values.
unfoldable mutual
  unfolding text_eq get size

  pub py_eq : Value → Value → Bool
  py_eq null w = elim w [ null ↦ true | _ ↦ false ]
  py_eq (bool a) w = elim w [
    | bool b ↦ of_bool a == of_bool b
    | int b ↦ int_eq (pos (of_bool a)) b
    | _ ↦ false
  ]
  py_eq (int a) w = elim w [ int b ↦ int_eq a b | bool b ↦ int_eq a (pos (of_bool b)) | _ ↦ false ]
  py_eq (float a) w = elim w [ float b ↦ a == b | _ ↦ false ]
  py_eq (str s) w = elim w [ str t ↦ text_eq s t | _ ↦ false ]
  py_eq (arr xs) w = elim w [ arr ys ↦ items_eq xs ys | _ ↦ false ]
  py_eq (obj m) w = elim w [ obj n ↦ size m == size n && fields_eq m n | _ ↦ false ]

  pub items_eq : Items → Items → Bool
  items_eq nil ys = elim ys [ nil ↦ true | cons y ys ↦ false ]
  items_eq (cons x xs) ys = elim ys [ nil ↦ false | cons y ys ↦ py_eq x y && items_eq xs ys ]

  pub fields_eq : Fields → Fields → Bool
  fields_eq end n = true
  fields_eq (field k v m) n = elim (get k n) [ none ↦ false | some w ↦ py_eq v w ] && fields_eq m n

-- `a.get(key) != b.get(key)`
unfoldable pub option_eq : Option Value → Option Value → Bool
unfolding py_eq
option_eq none none = true
option_eq (some v) (some w) = py_eq v w
option_eq _ _ = false

-- A list or a dict cannot be a member of a set: Python raises `TypeError`.
unfoldable pub hashable : Value → Bool
hashable (arr xs) = false
hashable (obj m) = false
hashable v = true

-- What `m[key]` gives where `key in m` has been tested; `null` stands where it has not.
abbrev pub or_null : Option Value → Value
or_null none = null
or_null (some v) = v

unfoldable pub at : Text → Fields → Value
unfolding get
at k m = or_null (get k m)
