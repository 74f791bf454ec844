-- ===== src/JsonReader/Answers.antt =====
-- What the answers of TransportSystem/json_reader.cpp hold, as the documents that their calls of the
-- builder make.
use transport_system.Prelude.{
  ◌≡◌, refl, ap, ◌∙◌, Bool-cases, Option, none, some, List, [], ◌∷◌, inl, inr, ℤ, Str, codes, ok,
  if◌then◌else◌,
}
use transport_system.Domain.{StopInfo, BusInfo}
use transport_system.Json.{
  Node, Items, null, array, dict, int, double, string, no_items, item, no_fields, field, push_back,
  is_null, is_array, is_dict, as_dict,
}
use transport_system.Json.Builder.{
  new_builder, initialization_node, value_of_key, value_on, value, key_on, key, takes_container,
  start_array, start_dict, close, end_array, end_dict, build,
}
use transport_system.TransportRouter.{ComponentTrip, Trip}
use transport_system.JsonReader.Responses.{
  entry, finish, response_bus, add_names, response_stop, to_count, add_item, add_trip_items,
  response_route,
}

module _ {D : Type 0} where
  abbrev join : Items D → Items D → Items D
  join no_items ys = ys
  join (item x xs) ys = item x (join xs ys)

  join-no_items : (xs : Items D) → join xs no_items ≡ xs
  join-no_items no_items = refl
  join-no_items (item x xs) = ap (item x) (join-no_items xs)

  join-push_back : (xs ys : Items D) (v : Node D) → join (push_back xs v) ys ≡ join xs (item v ys)
  join-push_back no_items ys v = refl
  join-push_back (item x xs) ys v = ap (item x) (join-push_back xs ys v)

  abbrev pub not_found : ℤ → Node D
  not_found id = dict (
      field (codes "error_message") (string (codes "not found"))
        (field (codes "request_id") (int id) no_fields))

  abbrev pub bus_answer : BusInfo D ℤ → ℤ → Node D
  bus_answer bus_info id = dict (
      field (codes "curvature") (double bus_info.curvature) (
        field (codes "request_id") (int id) (
          field (codes "route_length") (double bus_info.route_length) (
            field (codes "stop_count") (int bus_info.quantity_stop)
              (field (codes "unique_stop_count") (int bus_info.unique_stops) no_fields)))))

  -- The answer about a bus has its numbers under their names, or says that it is not found.
  pub response_bus_lem :
      (bus_info : BusInfo D ℤ) (id : ℤ)
      → response_bus bus_info id
        ≡ ok (if bus_info.exists' then bus_answer bus_info id else not_found id)
  unfolding response_bus entry finish new_builder start_dict takes_container key key_on value
      value_on value_of_key initialization_node is_null is_dict as_dict end_dict close build
  response_bus_lem bus_info id = elim (Bool-cases bus_info.exists') [
    | inl there ↦ rw there refl
    | inr missing ↦ rw missing refl
  ]

  abbrev pub name_items : List Str → Items D
  name_items [] = no_items
  name_items (name ∷ names) = item (string name) (name_items names)

  add_names-array :
      (names : List Str) (xs : Items D) (others : List (Node D))
      → add_names names (record { root = null; nodes_stack = array xs ∷ others })
        ≡ ok (record { root = null; nodes_stack = array (join xs (name_items names)) ∷ others })
  unfolding add_names value value_on initialization_node is_null
  add_names-array [] xs others = rw (join-no_items xs) refl
  add_names-array (name ∷ names) xs others =
      add_names-array names (push_back xs (string name)) others
      ∙ rw (join-push_back xs (name_items names) (string name)) refl

  abbrev pub stop_answer : List Str → ℤ → Node D
  stop_answer buses id = dict (
      field (codes "buses") (array (name_items buses))
        (field (codes "request_id") (int id) no_fields))

  -- The answer about a stop lists its buses in their order, or says that it is not found.
  pub response_stop_lem :
      (stop_info : StopInfo) (id : ℤ)
      → response_stop stop_info id
        ≡ ok (if stop_info.exists' then stop_answer stop_info.buses id else not_found id)
  unfolding response_stop entry finish new_builder start_dict start_array takes_container key key_on
      value value_on value_of_key initialization_node is_null is_array is_dict as_dict end_array
      end_dict close build
  response_stop_lem stop_info id = elim (Bool-cases stop_info.exists') [
    | inl there ↦ rw (there, add_names-array stop_info.buses no_items _) refl
    | inr missing ↦ rw missing refl
  ]

  abbrev pub item_answer : ComponentTrip D → Node D
  item_answer trip = elim trip.span_count [
    | some count ↦ dict (
        field (codes "bus") (string trip.name) (
          field (codes "span_count") (int (to_count count)) (
            field (codes "time") (double trip.weight)
              (field (codes "type") (string (codes "Bus")) no_fields))))
    | none ↦ dict (
        field (codes "stop_name") (string trip.name) (
          field (codes "time") (double trip.weight)
            (field (codes "type") (string (codes "Wait")) no_fields)))
  ]

  abbrev pub trip_items : List (ComponentTrip D) → Items D
  trip_items [] = no_items
  trip_items (trip ∷ trips) = item (item_answer trip) (trip_items trips)

  add_item-array :
      (trip : ComponentTrip D) (xs : Items D) (others : List (Node D))
      → add_item trip (record { root = null; nodes_stack = array xs ∷ others })
        ≡ ok
            (record { root = null; nodes_stack = array (push_back xs (item_answer trip)) ∷ others })
  unfolding add_item entry start_dict takes_container key key_on value value_on value_of_key
      initialization_node is_null is_dict as_dict end_dict close
  add_item-array trip xs others =
      elim trip.span_count
        as (λ c.
          add_item (record trip { span_count = c })
            (record { root = null; nodes_stack = array xs ∷ others })
          ≡ ok (record {
            root = null;
            nodes_stack =
                array (push_back xs (item_answer (record trip { span_count = c }))) ∷ others;
          })) [ none ↦ refl | some count ↦ refl ]

  add_trip_items-array :
      (trips : List (ComponentTrip D)) (xs : Items D) (others : List (Node D))
      → add_trip_items trips (record { root = null; nodes_stack = array xs ∷ others })
        ≡ ok (record { root = null; nodes_stack = array (join xs (trip_items trips)) ∷ others })
  unfolding add_trip_items
  add_trip_items-array [] xs others = rw (join-no_items xs) refl
  add_trip_items-array (trip ∷ trips) xs others = rw (add_item-array trip xs others) (
      add_trip_items-array trips (push_back xs (item_answer trip)) others
      ∙ rw (join-push_back xs (trip_items trips) (item_answer trip)) refl)

  abbrev pub route_answer : Option (Trip D) → ℤ → Node D
  route_answer none id = not_found id
  route_answer (some info) id = dict (
      field (codes "items") (array (trip_items info.items)) (
        field (codes "request_id") (int id)
          (field (codes "total_time") (double info.total_time) no_fields)))

  -- The answer about a route lists the rides and the waits in their order, each with its time, and
  -- the time of the whole trip; without a trip it says that it is not found.
  pub response_route_lem :
      (info : Option (Trip D)) (id : ℤ) → response_route info id ≡ ok (route_answer info id)
  unfolding response_route entry finish new_builder start_dict start_array takes_container key
      key_on value value_on value_of_key initialization_node is_null is_array is_dict as_dict
      end_array end_dict close build
  response_route_lem none id = refl
  response_route_lem (some info) id = rw (add_trip_items-array info.items no_items _) refl
