-- ===== src/Json/Builder.antt =====
-- TransportSystem/json_builder.h, TransportSystem/json_builder.cpp: a document is built by calls.
-- `nodes_stack_` is a list with its back first; its nodes are values, without their addresses. An
-- exception ends the build: what it leaves of the builder is not modelled. Which calls a context
-- class offers is C++ typing, and any sequence of calls is modelled.
pub mod Stack
pub mod Replay
use transport_system.Prelude.{
  Bool, true, false, List, [], ◌∷◌, Str, Result, ok, throw, logic_error, undefined, ◌>>=◌, not,
  if◌then◌else◌,
}
use transport_system.Json.{
  Node, Items, Fields, null, array, dict, bool, int, double, string, no_items, no_fields, push_back,
  emplace, is_null, is_array, is_string, is_dict, as_array, as_dict, as_string,
}

pub record Builder (D : Type 0) : Type 0 where
  pub root : Node D
  pub nodes_stack : List (Node D)

module _ {D : Type 0} where
  unfoldable pub new_builder : Builder D
  new_builder = record { root = null; nodes_stack = [] }

  -- `InitializationNode`
  unfoldable pub initialization_node : Node D → Node D
  initialization_node null = null
  initialization_node (array xs) = array xs
  initialization_node (dict fs) = dict fs
  initialization_node (bool b) = bool b
  initialization_node (int z) = int z
  initialization_node (double x) = double x
  initialization_node (string s) = string s

  -- `Value` after a key that is taken off the stack.
  unfoldable pub value_of_key : Node D → Str → Node D → List (Node D) → Result (Builder D)
  value_of_key root key node [] = throw undefined
  value_of_key root key node (back ∷ others) = as_dict back >>= λ map.
      ok (record { root = root; nodes_stack = dict (emplace key node map) ∷ others })

  -- `Value` on the stack, when the object is not ready.
  unfoldable pub value_on : Node D → Node D → List (Node D) → Result (Builder D)
  unfolding value_of_key
  value_on root node [] = ok (record { root = node; nodes_stack = [] })
  value_on root node (array xs ∷ others) =
      ok (record { root = root; nodes_stack = array (push_back xs node) ∷ others })
  value_on root node (string key ∷ others) = value_of_key root key node others
  value_on root node (_ ∷ others) = throw logic_error

  unfoldable pub value : Node D → Builder D → Result (Builder D)
  unfolding value_on is_null initialization_node
  value val b =
      if is_null b.root
      then value_on b.root (initialization_node val) b.nodes_stack
      else throw logic_error

  unfoldable pub key_on : Node D → Str → List (Node D) → Result (Builder D)
  key_on root name [] = throw logic_error
  key_on root name (dict fs ∷ others) =
      ok (record { root = root; nodes_stack = string name ∷ dict fs ∷ others })
  key_on root name (_ ∷ others) = throw logic_error

  unfoldable pub key : Str → Builder D → Result (Builder D)
  unfolding key_on is_null
  key name b = if is_null b.root then key_on b.root name b.nodes_stack else throw logic_error

  -- The second test of `StartArray` and of `StartDict`.
  unfoldable pub takes_container : List (Node D) → Bool
  takes_container [] = true
  takes_container (array _ ∷ _) = true
  takes_container (string _ ∷ _) = true
  takes_container (_ ∷ _) = false

  unfoldable pub start_array : Builder D → Result (Builder D)
  unfolding is_null takes_container
  start_array b =
      if is_null b.root
      then if takes_container b.nodes_stack
        then ok (record { root = b.root; nodes_stack = array no_items ∷ b.nodes_stack })
        else throw logic_error
      else throw logic_error

  unfoldable pub start_dict : Builder D → Result (Builder D)
  unfolding is_null takes_container
  start_dict b =
      if is_null b.root
      then if takes_container b.nodes_stack
        then ok (record { root = b.root; nodes_stack = dict no_fields ∷ b.nodes_stack })
        else throw logic_error
      else throw logic_error

  -- The container is finished: it is the root if it was alone on the stack, and a value if not.
  unfoldable pub close : Node D → Node D → List (Node D) → Result (Builder D)
  unfolding value
  close root node [] = ok (record { root = node; nodes_stack = [] })
  close root node (back ∷ others) = value node (record { root = root; nodes_stack = back ∷ others })

  unfoldable pub end_array : Builder D → Result (Builder D)
  unfolding close is_array
  end_array b = elim b.nodes_stack [
    | [] ↦ throw logic_error
    | back ∷ others ↦ if is_array back then close b.root back others else throw logic_error
  ]

  unfoldable pub end_dict : Builder D → Result (Builder D)
  unfolding close is_dict
  end_dict b = elim b.nodes_stack [
    | [] ↦ throw logic_error
    | back ∷ others ↦ if is_dict back then close b.root back others else throw logic_error
  ]

  unfoldable pub build : Builder D → Result (Node D)
  unfolding is_null
  build b =
      if is_null b.root
      then throw logic_error
      else elim b.nodes_stack [ [] ↦ ok b.root | _ ∷ _ ↦ throw logic_error ]
