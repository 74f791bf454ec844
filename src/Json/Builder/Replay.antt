-- ===== src/Json/Builder/Replay.antt =====
-- TransportSystem/json_builder.cpp: the calls that build a given document.
use transport_system.Prelude.{
  ◌≡◌, refl, sym, ap, ◌∙◌, true, false, List, [], ◌∷◌, ◌++◌, Str, Result, ok, throw, ◌>>=◌,
  Result-cases, inl, inr, str_lt,
}
use transport_system.Json.{
  Node, Items, Fields, null, array, dict, bool, int, double, string, no_items, item, no_fields,
  field, push_back, emplace, is_null, as_dict,
}
use transport_system.Json.Plain.{
  AllKeys, join_items, join, join_items-push_back, join_items-nil, join-nil, join-join, Before,
  emplace-above, Before-join,
}
use transport_system.Json.Builder.{
  Builder, new_builder, value, key, start_array, start_dict, close, takes_container,
  initialization_node, build,
}
use transport_system.Json.Builder.Stack.{
  Call, value_call, key_call, start_array_call, end_array_call, start_dict_call, end_dict_call,
  call, IsHost, at_root, in_array, at_key,
}

module _ {D : Type 0} where
  -- A sequence of calls.
  unfoldable pub call_all : List (Call D) → Builder D → Result (Builder D)
  unfolding call
  call_all [] b = ok b
  call_all (c ∷ cs) b = call c b >>= call_all cs

  -- The calls for a document, its containers built entry by entry.
  abbrev mutual
    pub calls : Node D → List (Call D)
    calls (array xs) = start_array_call ∷ item_calls xs
    calls (dict fs) = start_dict_call ∷ field_calls fs
    calls null = value_call null ∷ []
    calls (bool b) = value_call (bool b) ∷ []
    calls (int z) = value_call (int z) ∷ []
    calls (double x) = value_call (double x) ∷ []
    calls (string s) = value_call (string s) ∷ []

    pub item_calls : Items D → List (Call D)
    item_calls no_items = end_array_call ∷ []
    item_calls (item v xs) = calls v ++ item_calls xs

    pub field_calls : Fields D → List (Call D)
    field_calls no_fields = end_dict_call ∷ []
    field_calls (field k v fs) = key_call k ∷ (calls v ++ field_calls fs)

  -- The keys of each dictionary ascend, as a std::map keeps them.
  abbrev mutual
    pub HasSortedKeys : Node D → Type 0
    HasSortedKeys (array xs) = HaveSortedKeys xs
    HasSortedKeys (dict fs) = FieldsHaveSortedKeys fs
    HasSortedKeys null = Unit
    HasSortedKeys (bool b) = Unit
    HasSortedKeys (int z) = Unit
    HasSortedKeys (double x) = Unit
    HasSortedKeys (string s) = Unit

    pub HaveSortedKeys : Items D → Type 0
    HaveSortedKeys no_items = Unit
    HaveSortedKeys (item v xs) = HasSortedKeys v × HaveSortedKeys xs

    pub FieldsHaveSortedKeys : Fields D → Type 0
    FieldsHaveSortedKeys no_fields = Unit
    FieldsHaveSortedKeys (field k v fs) =
        AllKeys (λ j. str_lt k j ≡ true) fs × HasSortedKeys v × FieldsHaveSortedKeys fs

  call_all-append :
      (cs ds : List (Call D)) (b : Builder D)
      → call_all (cs ++ ds) b ≡ (call_all cs b >>= call_all ds)
  unfolding call_all
  call_all-append [] ds b = refl
  call_all-append (c ∷ cs) ds b = elim (Result-cases (call c b)) [
    | inl (a, e) ↦ rw e (call_all-append cs ds a)
    | inr (x, e) ↦ rw e refl
  ]

  >>=-pure : (m : Result (Builder D)) → (m >>= λ b. ok b) ≡ m
  >>=-pure (ok b) = refl
  >>=-pure (throw e) = refl

  initialization_node-same : (v : Node D) → initialization_node v ≡ v
  unfolding initialization_node
  initialization_node-same null = refl
  initialization_node-same (array xs) = refl
  initialization_node-same (dict fs) = refl
  initialization_node-same (bool b) = refl
  initialization_node-same (int z) = refl
  initialization_node-same (double x) = refl
  initialization_node-same (string s) = refl

  abbrev building : List (Node D) → Builder D
  building stack = record { root = null; nodes_stack = stack }

  -- The container is put where a value stands.
  close-value :
      (v : Node D) (stack : List (Node D))
      → IsHost stack
      → close null v stack ≡ value v (building stack)
  unfolding close value
  close-value v _ at_root =
      ap (λ r. ok (record { root = r; nodes_stack = [] })) (sym (initialization_node-same v))
  close-value v _ (in_array xs others h) = refl
  close-value v _ (at_key k fs others h) = refl

  IsHost-takes_container : (stack : List (Node D)) → IsHost stack → takes_container stack ≡ true
  unfolding takes_container
  IsHost-takes_container _ at_root = refl
  IsHost-takes_container _ (in_array xs others h) = refl
  IsHost-takes_container _ (at_key k fs others h) = refl

  start_array-host :
      (stack : List (Node D))
      → IsHost stack
      → start_array (building stack) ≡ ok (building (array no_items ∷ stack))
  unfolding start_array
  start_array-host stack h = rw (IsHost-takes_container stack h) refl

  start_dict-host :
      (stack : List (Node D))
      → IsHost stack
      → start_dict (building stack) ≡ ok (building (dict no_fields ∷ stack))
  unfolding start_dict
  start_dict-host stack h = rw (IsHost-takes_container stack h) refl

  value-array :
      (v : Node D) (acc : Items D) (stack : List (Node D))
      → value v (building (array acc ∷ stack)) ≡ ok (building (array (push_back acc v) ∷ stack))
  unfolding value
  value-array v acc stack = rw (initialization_node-same v) refl

  value-key :
      (k : Str) (v : Node D) (acc : Fields D) (stack : List (Node D))
      → value v (building (string k ∷ dict acc ∷ stack))
        ≡ ok (building (dict (emplace k v acc) ∷ stack))
  unfolding value as_dict
  value-key k v acc stack = rw (initialization_node-same v) refl

  key-dict :
      (k : Str) (acc : Fields D) (stack : List (Node D))
      → key k (building (dict acc ∷ stack)) ≡ ok (building (string k ∷ dict acc ∷ stack))
  unfolding key
  key-dict k acc stack = refl

  -- The first calls return, and the others go on.
  call_all-then :
      (cs ds : List (Call D)) (b : Builder D) {m : Builder D}
      → call_all cs b ≡ ok m
      → call_all (cs ++ ds) b ≡ call_all ds m
  call_all-then cs ds b e = call_all-append cs ds b ∙ rw e refl

  call_then :
      (c : Call D) (ds : List (Call D)) (b : Builder D) {m : Builder D}
      → call c b ≡ ok m
      → call_all (c ∷ ds) b ≡ call_all ds m
  unfolding call_all
  call_then c ds b e = rw e refl

  call_last : (c : Call D) (b : Builder D) → call_all (c ∷ []) b ≡ call c b
  unfolding call_all
  call_last c b = >>=-pure (call c b)

  mutual
    unfolding call

    calls-value :
        (v : Node D) (stack : List (Node D))
        → IsHost stack
        → HasSortedKeys v
        → call_all (calls v) (building stack) ≡ value v (building stack)
    calls-value null stack h s = call_last (value_call null) (building stack)
    calls-value (array xs) stack h s =
        call_then start_array_call (item_calls xs) (building stack) (start_array-host stack h)
        ∙ item_calls-close xs no_items stack h s
        ∙ close-value (array xs) stack h
    calls-value (dict fs) stack h s =
        call_then start_dict_call (field_calls fs) (building stack) (start_dict-host stack h)
        ∙ field_calls-close fs no_fields stack h s tt
        ∙ close-value (dict fs) stack h
    calls-value (bool b) stack h s = call_last (value_call (bool b)) (building stack)
    calls-value (int z) stack h s = call_last (value_call (int z)) (building stack)
    calls-value (double x) stack h s = call_last (value_call (double x)) (building stack)
    calls-value (string t) stack h s = call_last (value_call (string t)) (building stack)

    item_calls-close :
        (xs acc : Items D) (stack : List (Node D))
        → IsHost stack
        → HaveSortedKeys xs
        → call_all (item_calls xs) (building (array acc ∷ stack))
          ≡ close null (array (join_items acc xs)) stack
    item_calls-close no_items acc stack h s =
        call_last end_array_call (building (array acc ∷ stack))
        ∙ ap (λ ys. close null (array ys) stack) (sym (join_items-nil acc))
    item_calls-close (item v xs) acc stack h s =
        call_all-then (calls v) (item_calls xs) (building (array acc ∷ stack))
          (calls-value v (array acc ∷ stack) (in_array acc stack h) s.0 ∙ value-array v acc stack)
        ∙ item_calls-close xs (push_back acc v) stack h s.1
        ∙ ap (λ ys. close null (array ys) stack) (join_items-push_back acc v xs)

    field_calls-close :
        (fs acc : Fields D) (stack : List (Node D))
        → IsHost stack
        → FieldsHaveSortedKeys fs
        → Before acc fs
        → call_all (field_calls fs) (building (dict acc ∷ stack))
          ≡ close null (dict (join acc fs)) stack
    field_calls-close no_fields acc stack h s b =
        call_last end_dict_call (building (dict acc ∷ stack))
        ∙ ap (λ gs. close null (dict gs) stack) (sym (join-nil acc))
    field_calls-close (field k v fs) acc stack h (above, sorted, others) b =
        call_then (key_call k) (calls v ++ field_calls fs) (building (dict acc ∷ stack))
          (key-dict k acc stack)
        ∙ call_all-then (calls v) (field_calls fs) (building (string k ∷ dict acc ∷ stack)) (
            calls-value v (string k ∷ dict acc ∷ stack) (at_key k acc stack h) sorted
            ∙ value-key k v acc stack)
        ∙ ap (λ gs. call_all (field_calls fs) (building (dict gs ∷ stack)))
            (emplace-above k v acc fs b)
        ∙ field_calls-close fs (join acc (field k v no_fields)) stack h others
            (Before-join k v acc fs above b)
        ∙ ap (λ gs. close null (dict gs) stack) (join-join acc k v fs)

  -- The calls for a document other than null, whose keys ascend, build that document.
  pub build-calls :
      (v : Node D)
      → HasSortedKeys v
      → is_null v ≡ false
      → (call_all (calls v) new_builder >>= build) ≡ ok v
  unfolding build new_builder value
  build-calls v s e =
      ap (λ m. m >>= build) (calls-value v [] at_root s) ∙ rw (initialization_node-same v, e) refl
