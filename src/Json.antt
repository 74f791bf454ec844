-- ===== src/Json.antt =====
-- TransportSystem/json.h: the values of JSON documents. `D` stands for `double`.
pub mod Print
pub mod Load
pub mod Total
pub mod Plain
pub mod RoundTrip
pub mod Builder
use transport_system.Prelude.{
  Bool, true, false, Option, none, some, ℤ, Str, str_eq, str_lt, Result, ok, throw, logic_error,
  if◌then◌else◌,
}

-- `Node`: an `int` is an integer, of which IsInt says that it has 32 bits. `Items` is `Array`, and
-- `Fields` is `Dict`, a `std::map`, in the order of its keys.
mutual
  pub data Node (D : Type 0) : Type 0 where
    null : Node D
    array : Items D → Node D
    dict : Fields D → Node D
    bool : Bool → Node D
    int : ℤ → Node D
    double : D → Node D
    string : Str → Node D

  pub data Items (D : Type 0) : Type 0 where
    no_items : Items D
    item : Node D → Items D → Items D

  pub data Fields (D : Type 0) : Type 0 where
    no_fields : Fields D
    field : Str → Node D → Fields D → Fields D

module _ {D : Type 0} where
  -- `std::vector::push_back`
  abbrev pub push_back : Items D → Node D → Items D
  push_back no_items v = item v no_items
  push_back (item u us) v = item u (push_back us v)

  -- `std::map::find`
  abbrev pub find : Str → Fields D → Option (Node D)
  find k no_fields = none
  find k (field j v fs) = if str_eq k j then some v else find k fs

  -- `std::map::emplace`: an entry that is there stays as it is.
  abbrev pub emplace : Str → Node D → Fields D → Fields D
  emplace k v no_fields = field k v no_fields
  emplace k v (field j w fs) =
      if str_eq k j
      then field j w fs
      else if str_lt k j
      then field k v (field j w fs)
      else field j w (emplace k v fs)

  unfoldable pub is_null : Node D → Bool
  is_null null = true
  is_null _ = false

  unfoldable pub is_int : Node D → Bool
  is_int (int _) = true
  is_int _ = false

  unfoldable pub is_pure_double : Node D → Bool
  is_pure_double (double _) = true
  is_pure_double _ = false

  unfoldable pub is_array : Node D → Bool
  is_array (array _) = true
  is_array _ = false

  unfoldable pub is_string : Node D → Bool
  is_string (string _) = true
  is_string _ = false

  unfoldable pub is_dict : Node D → Bool
  is_dict (dict _) = true
  is_dict _ = false

  unfoldable pub as_int : Node D → Result ℤ
  as_int (int z) = ok z
  as_int _ = throw logic_error

  -- An int is converted to double, which `to_double` does.
  unfoldable pub as_double : (ℤ → D) → Node D → Result D
  as_double to_double (double x) = ok x
  as_double to_double (int z) = ok (to_double z)
  as_double to_double _ = throw logic_error

  unfoldable pub as_bool : Node D → Result Bool
  as_bool (bool b) = ok b
  as_bool _ = throw logic_error

  unfoldable pub as_array : Node D → Result (Items D)
  as_array (array xs) = ok xs
  as_array _ = throw logic_error

  unfoldable pub as_string : Node D → Result Str
  as_string (string s) = ok s
  as_string _ = throw logic_error

  unfoldable pub as_dict : Node D → Result (Fields D)
  as_dict (dict fs) = ok fs
  as_dict _ = throw logic_error
