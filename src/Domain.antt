-- ===== src/Domain.antt =====
-- TransportSystem/domain.h, TransportSystem/geo.h: stops and buses. The stops stand in a
-- `std::deque` that only grows, so a `Stop*` is a place in it.
use transport_system.Prelude.{
  ℕ, Bool, List, [], ◌∷◌, ◌++◌, reverse, Str, get_elem?, Result, ok, throw, undefined, or_throw,
  ◌>>=◌,
}

pub record Coordinates (D : Type 0) : Type 0 where
  pub lat : D
  pub lng : D

pub record Stop (D : Type 0) : Type 0 where
  pub name : Str
  pub coordinates : Coordinates D

pub record Bus : Type 0 where
  pub name : Str
  pub stops : List ℕ
  pub is_loop_trip : Bool

pub record StopInfo : Type 0 where
  pub exists' : Bool
  pub buses : List Str

-- `Q` stands for `int`.
pub record BusInfo (D Q : Type 0) : Type 0 where
  pub exists' : Bool
  pub curvature : D
  pub route_length : D
  pub quantity_stop : Q
  pub unique_stops : Q

module _ {A : Type 0} where
  -- `pop_back`, undefined on an empty container
  unfoldable pub pop_back : List A → Result (List A)
  pop_back [] = throw undefined
  pop_back (x ∷ []) = ok []
  pop_back (x ∷ y ∷ xs) = pop_back (y ∷ xs) >>= λ front. ok (x ∷ front)

  -- The way to the last stop and back: what `SummationLenght` and `RenderWay` make of the stops of a
  -- bus that is no loop.
  unfoldable pub there_and_back : List A → Result (List A)
  unfolding pop_back
  there_and_back stops = pop_back stops >>= λ front. ok (stops ++ reverse front)

  -- `*stop`
  unfoldable pub deref : List A → ℕ → Result A
  deref store p = or_throw undefined (get_elem? store p)

  unfoldable pub deref_all : List A → List ℕ → Result (List A)
  unfolding deref
  deref_all store [] = ok []
  deref_all store (p ∷ ps) = deref store p >>= λ a. deref_all store ps >>= λ as'. ok (a ∷ as')
