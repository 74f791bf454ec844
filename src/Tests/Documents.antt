-- ===== src/Tests/Documents.antt =====
-- JSON documents (TransportSystem/json.cpp, TransportSystem/json_builder.cpp).
use transport_system.Prelude.{
  arith, ℕ, ◌≡◌, refl, Option, none, [], ◌⊎◌, ◌<◌, negsuc, Str, codes, length, ok, throw,
  parsing_error, logic_error, ◌>>=◌,
}
use transport_system.Json.{
  Node, null, array, dict, int, string, no_items, item, no_fields, field, is_null,
}
use transport_system.Json.Print.{print}
use transport_system.Json.Load.{load}
use transport_system.Json.Total.{load_ends}
use transport_system.Json.Plain.{IsPlain}
use transport_system.Tests.Numerals.{show_int, stoi, numerals}
use transport_system.Json.RoundTrip.{load-print}
use transport_system.Json.Builder.{
  Builder, new_builder, build, value, value_on, initialization_node,
}
use transport_system.Json.Builder.Stack.{key_call, call, call-Decides, IsStack, host, at_root}
use transport_system.Json.Builder.Replay.{call_all, calls, build-calls}

abbrev stod : Str → Option ℕ
stod s = none

abbrev show_double : ℕ → Str
show_double n = []

-- {"a": [-2, "x\"y"], "b": null}
abbrev document : Node ℕ
document = dict (
    field (codes "a") (array (item (int (negsuc 1)) (item (string (codes "x\"y")) no_items)))
      (field (codes "b") null no_fields))

document-IsPlain : IsPlain document
document-IsPlain = ((refl, tt), (omega arith, (tt, tt)), (tt, tt, tt))

load-print_example : load stoi stod (print show_int show_double document) ≡ ok (document, [])
load-print_example = load-print show_int show_double stoi stod numerals document document-IsPlain

load_ends_example :
    ((v : Node ℕ) × (rest : Str) × (load stoi stod (codes "[1 2") ≡ ok (v, rest))
      × (length rest < 4))
    ⊎ (load stoi stod (codes "[1 2") ≡ throw parsing_error)
load_ends_example = load_ends stoi stod (codes "[1 2")

call-Decides_example :
    ((b : Builder ℕ) × (call {D = ℕ} (key_call (codes "k")) new_builder ≡ ok b)
      × IsStack b.nodes_stack)
    ⊎ (call {D = ℕ} (key_call (codes "k")) new_builder ≡ throw logic_error)
unfolding new_builder
call-Decides_example = call-Decides {D = ℕ} (key_call (codes "k")) new_builder (host _ at_root)

build-calls_example : (call_all (calls document) new_builder >>= build) ≡ ok document
build-calls_example =
    build-calls document ((refl, tt), (tt, (tt, tt)), (tt, tt, tt)) (unfold is_null in refl)

abbrev null_document : Node ℕ
null_document = null

-- `Value(nullptr)` leaves the builder without a root, so `Build` throws.
null_root : (call_all (calls null_document) new_builder >>= build) ≡ throw logic_error
unfolding call_all call build new_builder value value_on is_null initialization_node
null_root = refl
