-- ===== src/Json/Builder/Stack.antt =====
-- The stack of the builder of TransportSystem/json_builder.cpp: where a key may stand.
use transport_system.Prelude.{
  ◌≡◌, refl, true, Bool-cases, List, [], ◌∷◌, Str, Result, ok, throw, logic_error, ◌⊎◌, inl, inr,
  if◌then◌else◌,
}
use transport_system.Json.{
  Node, Items, Fields, array, dict, string, no_items, no_fields, is_null, is_array, is_dict,
  as_dict,
}
use transport_system.Json.Builder.{
  Builder, value, value_on, value_of_key, key, key_on, start_array, start_dict, end_array, end_dict,
  close, takes_container, initialization_node,
}

-- The calls of a builder.
pub data Call (D : Type 0) : Type 0 where
  value_call : Node D → Call D
  key_call : Str → Call D
  start_array_call : Call D
  end_array_call : Call D
  start_dict_call : Call D
  end_dict_call : Call D

-- Where a value may stand: alone, in an array, or at a key of a dictionary.
pub data IsHost {D : Type 0} : List (Node D) → Type 0 where
  at_root : IsHost []
  in_array : (xs : Items D) (others : List (Node D)) → IsHost others → IsHost (array xs ∷ others)
  at_key :
      (k : Str) (fs : Fields D) (others : List (Node D))
      → IsHost others
      → IsHost (string k ∷ dict fs ∷ others)

-- A stack on which a value may stand, or with a dictionary at its back, which awaits a key.
pub data IsStack {D : Type 0} : List (Node D) → Type 0 where
  host : (stack : List (Node D)) → IsHost stack → IsStack stack
  in_dict : (fs : Fields D) (others : List (Node D)) → IsHost others → IsStack (dict fs ∷ others)

module _ {D : Type 0} where
  unfoldable pub call : Call D → Builder D → Result (Builder D)
  unfolding value key start_array end_array start_dict end_dict
  call (value_call v) = value v
  call (key_call k) = key k
  call start_array_call = start_array
  call end_array_call = end_array
  call start_dict_call = start_dict
  call end_dict_call = end_dict

  -- A call returns with a well-formed stack or throws `logic_error`.
  abbrev pub Decides : Result (Builder D) → Type 0
  Decides r = ((b : Builder D) × (r ≡ ok b) × IsStack b.nodes_stack) ⊎ (r ≡ throw logic_error)

  value_on-Decides :
      (root v : Node D) (stack : List (Node D)) → IsStack stack → Decides (value_on root v stack)
  unfolding value_on value_of_key as_dict
  value_on-Decides root v _ (host _ at_root) = inl (_, refl, host _ at_root)
  value_on-Decides root v _ (host _ (in_array xs others h)) =
      inl (_, refl, host _ (in_array _ others h))
  value_on-Decides root v _ (host _ (at_key k fs others h)) = inl (_, refl, in_dict _ others h)
  value_on-Decides root v _ (in_dict fs others h) = inr refl

  value-Decides : (v : Node D) (b : Builder D) → IsStack b.nodes_stack → Decides (value v b)
  unfolding value
  value-Decides v b h = elim (Bool-cases (is_null b.root)) [
    | inl e ↦ rw e (value_on-Decides b.root (initialization_node v) b.nodes_stack h)
    | inr e ↦ rw e (inr refl)
  ]

  key_on-Decides :
      (root : Node D) (k : Str) (stack : List (Node D))
      → IsStack stack
      → Decides (key_on root k stack)
  unfolding key_on
  key_on-Decides root k _ (host _ at_root) = inr refl
  key_on-Decides root k _ (host _ (in_array xs others h)) = inr refl
  key_on-Decides root k _ (host _ (at_key j fs others h)) = inr refl
  key_on-Decides root k _ (in_dict fs others h) = inl (_, refl, host _ (at_key k fs others h))

  close-Decides :
      (root v : Node D) (stack : List (Node D)) → IsHost stack → Decides (close root v stack)
  unfolding close
  close-Decides root v _ at_root = inl (_, refl, host _ at_root)
  close-Decides root v _ (in_array xs others h) = value-Decides v _ (host _ (in_array xs others h))
  close-Decides root v _ (at_key k fs others h) = value-Decides v _ (host _ (at_key k fs others h))

  -- Where a container may begin, a value may stand.
  takes_container-IsHost :
      (stack : List (Node D)) → IsStack stack → takes_container stack ≡ true → IsHost stack
  unfolding takes_container
  takes_container-IsHost stack (host _ h) e = h
  takes_container-IsHost _ (in_dict fs others h) e = cc

  start-Decides :
      (c : Node D) (b : Builder D)
      → IsStack b.nodes_stack
      → (IsHost b.nodes_stack → IsStack (c ∷ b.nodes_stack))
      → Decides (
          if is_null b.root
          then if takes_container b.nodes_stack
            then ok (record { root = b.root; nodes_stack = c ∷ b.nodes_stack })
            else throw logic_error
          else throw logic_error)
  start-Decides c b h on = elim (Bool-cases (is_null b.root)) [
    | inl e ↦ elim (Bool-cases (takes_container b.nodes_stack)) [
      | inl k ↦ rw (e, k) (inl (_, refl, on (takes_container-IsHost b.nodes_stack h k)))
      | inr k ↦ rw (e, k) (inr refl)
    ]
    | inr e ↦ rw e (inr refl)
  ]

  end_array-Decides :
      (root : Node D) (stack : List (Node D))
      → IsStack stack
      → Decides (end_array (record { root = root; nodes_stack = stack }))
  unfolding end_array is_array
  end_array-Decides root _ (host _ at_root) = inr refl
  end_array-Decides root _ (host _ (in_array xs others h)) = close-Decides root (array xs) others h
  end_array-Decides root _ (host _ (at_key j fs others h)) = inr refl
  end_array-Decides root _ (in_dict fs others h) = inr refl

  end_dict-Decides :
      (root : Node D) (stack : List (Node D))
      → IsStack stack
      → Decides (end_dict (record { root = root; nodes_stack = stack }))
  unfolding end_dict is_dict
  end_dict-Decides root _ (host _ at_root) = inr refl
  end_dict-Decides root _ (host _ (in_array xs others h)) = inr refl
  end_dict-Decides root _ (host _ (at_key j fs others h)) = inr refl
  end_dict-Decides root _ (in_dict fs others h) = close-Decides root (dict fs) others h

  -- On a well-formed stack each call returns with a well-formed stack, or throws `logic_error`: it
  -- never takes a key off the stack that has no dictionary below it.
  pub call-Decides : (c : Call D) (b : Builder D) → IsStack b.nodes_stack → Decides (call c b)
  unfolding call start_array start_dict key
  call-Decides (value_call v) b h = value-Decides v b h
  call-Decides (key_call k) b h = elim (Bool-cases (is_null b.root)) [
    | inl e ↦ rw e (key_on-Decides b.root k b.nodes_stack h)
    | inr e ↦ rw e (inr refl)
  ]
  call-Decides start_array_call b h =
      start-Decides (array no_items) b h (λ k. host _ (in_array no_items b.nodes_stack k))
  call-Decides end_array_call b h = end_array-Decides b.root b.nodes_stack h
  call-Decides start_dict_call b h =
      start-Decides (dict no_fields) b h (in_dict no_fields b.nodes_stack)
  call-Decides end_dict_call b h = end_dict-Decides b.root b.nodes_stack h
