-- ===== src/Python/Json.antt =====
-- `json.dumps(value, sort_keys=True, allow_nan=False)`: a text is represented by the value that it
-- decodes to, with the keys of each object sorted, so two texts are equal when these values are.
use foundry_pay.Base.{
  suc, ◌/◌, ◌%◌, ◌^◌, ltb, Bool, is_encodable, true, false, not, ◌&&◌, ◌==◌, if◌then◌else◌, Text,
  text_eq, text_lt,
}
use foundry_pay.Python.Value.{
  ℤ, Value, Items, Fields, pos, negsuc, null, bool, int, float, str, arr, obj, nil, cons, end,
  field,
}

-- A member put in its place among sorted members.
unfoldable pub insert_member : Text → Value → Fields → Fields
unfolding text_lt
insert_member k v end = field k v end
insert_member k v (field j w m) =
    let rest = insert_member k v m in
    if text_lt k j then field k v (field j w m) else field j w rest

unfoldable mutual
  unfolding insert_member

  pub sort_keys : Value → Value
  sort_keys (arr xs) = arr (sort_items xs)
  sort_keys (obj m) = obj (sort_members m)
  sort_keys null = null
  sort_keys (bool b) = bool b
  sort_keys (int n) = int n
  sort_keys (float n) = float n
  sort_keys (str s) = str s

  pub sort_items : Items → Items
  sort_items nil = nil
  sort_items (cons x xs) = cons (sort_keys x) (sort_items xs)

  pub sort_members : Fields → Fields
  sort_members end = end
  sort_members (field k v m) = insert_member k (sort_keys v) (sort_members m)

-- `allow_nan=False`: the exponent of a finite float is not all ones.
unfoldable mutual
  pub is_finite : Value → Bool
  is_finite (float bits) = not (bits / 2 ^ 52 % 2048 == 2047)
  is_finite (arr xs) = finite_items xs
  is_finite (obj m) = finite_members m
  is_finite null = true
  is_finite (bool b) = true
  is_finite (int n) = true
  is_finite (str s) = true

  pub finite_items : Items → Bool
  finite_items nil = true
  finite_items (cons x xs) = is_finite x && finite_items xs

  pub finite_members : Fields → Bool
  finite_members end = true
  finite_members (field k v m) = is_finite v && finite_members m

-- The limit of `int.__repr__`, in digits, without the sign.
unfoldable pub is_short : ℤ → Bool
is_short (pos n) = ltb n (10 ^ 4300)
is_short (negsuc n) = ltb (suc n) (10 ^ 4300)

-- No integer is too long for `json.dumps`.
unfoldable mutual
  unfolding is_short

  pub has_short_ints : Value → Bool
  has_short_ints (int n) = is_short n
  has_short_ints (arr xs) = short_items xs
  has_short_ints (obj m) = short_members m
  has_short_ints null = true
  has_short_ints (bool b) = true
  has_short_ints (float n) = true
  has_short_ints (str s) = true

  pub short_items : Items → Bool
  short_items nil = true
  short_items (cons x xs) = has_short_ints x && short_items xs

  pub short_members : Fields → Bool
  short_members end = true
  short_members (field k v m) = has_short_ints v && short_members m

-- With `ensure_ascii=False` the text has the surrogates of the value's texts and keys, and sqlite3
-- raises `UnicodeEncodeError`, a `ValueError`, when it binds a text that UTF-8 does not encode.
unfoldable mutual
  unfolding is_encodable

  pub is_bindable : Value → Bool
  is_bindable (str s) = is_encodable s
  is_bindable (arr xs) = bindable_items xs
  is_bindable (obj m) = bindable_members m
  is_bindable null = true
  is_bindable (bool b) = true
  is_bindable (int n) = true
  is_bindable (float n) = true

  pub bindable_items : Items → Bool
  bindable_items nil = true
  bindable_items (cons x xs) = is_bindable x && bindable_items xs

  pub bindable_members : Fields → Bool
  bindable_members end = true
  bindable_members (field k v m) = is_encodable k && is_bindable v && bindable_members m

abbrev same_bool : Bool → Bool → Bool
same_bool true b = b
same_bool false b = not b

-- Equality of encoded values: no number equals a Boolean here, and the order of members counts.
unfoldable mutual
  unfolding text_eq

  pub json_eq : Value → Value → Bool
  json_eq null w = elim w [ null ↦ true | _ ↦ false ]
  json_eq (bool a) w = elim w [ bool b ↦ same_bool a b | _ ↦ false ]
  json_eq (int (pos a)) w = elim w [ int (pos b) ↦ a == b | _ ↦ false ]
  json_eq (int (negsuc a)) w = elim w [ int (negsuc b) ↦ a == b | _ ↦ false ]
  json_eq (float a) w = elim w [ float b ↦ a == b | _ ↦ false ]
  json_eq (str s) w = elim w [ str t ↦ text_eq s t | _ ↦ false ]
  json_eq (arr xs) w = elim w [ arr ys ↦ items_json_eq xs ys | _ ↦ false ]
  json_eq (obj m) w = elim w [ obj n ↦ members_json_eq m n | _ ↦ false ]

  pub items_json_eq : Items → Items → Bool
  items_json_eq nil ys = elim ys [ nil ↦ true | cons y ys ↦ false ]
  items_json_eq (cons x xs) ys = elim ys [
    | nil ↦ false
    | cons y ys ↦ json_eq x y && items_json_eq xs ys
  ]

  pub members_json_eq : Fields → Fields → Bool
  members_json_eq end n = elim n [ end ↦ true | field k w n ↦ false ]
  members_json_eq (field j v m) n = elim n [
    | end ↦ false
    | field k w n ↦ text_eq j k && json_eq v w && members_json_eq m n
  ]
