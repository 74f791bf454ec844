-- ===== src/Router/Table.antt =====
-- The table of routes: its shape, and what a cell holds after a write.
use transport_system.Prelude.{
  ℕ, zero, suc, ◌≤◌, ◌<◌, ltb, get_or_of_length_le, ◌≡◌, refl, ◌⊎◌, false, Option, none, List, [],
  ◌&&◌, Bool-cases, inl, inr, arith, length, get_or, set, replicate, length-set, length-replicate,
  get_or-set, get_or-replicate, get_or-replicate_lt, ◌==◌, if◌then◌else◌,
}
use transport_system.Weight.{Weight}
use transport_system.Router.{RouteInternalData, Table, cell, set_cell, blank_table}

module _ (W : Weight) where
  -- n rows of n cells each
  pub record IsSquare (n : ℕ) (t : Table W) : Type 0 where
    pub rows : length t ≡ n
    pub columns : (i : ℕ) → i < n → length (get_or t i []) ≡ n

  abbrev blank_row : ℕ → List (Option (RouteInternalData W))
  blank_row n = replicate n none

  pub blank_table-IsSquare : (n : ℕ) → IsSquare n (blank_table W n)
  unfolding blank_table
  blank_table-IsSquare n = record {
    rows = length-replicate n _;
    columns = λ i h. rw (get_or-replicate_lt n i (blank_row n) [] h) (length-replicate n _);
  }

  pub cell-blank_table : (n i j : ℕ) → cell W (blank_table W n) i j ≡ none
  unfolding blank_table
  cell-blank_table n i j = go n i
    where
      go : (m i : ℕ) → cell W (replicate m (blank_row n)) i j ≡ none
      go zero i = refl
      go (suc m) zero = get_or-replicate n j none
      go (suc m) (suc i) = go m i

  pub set_cell-IsSquare :
      (n : ℕ) (t : Table W) (i j : ℕ) (d : Option (RouteInternalData W))
      → i < n
      → IsSquare n t
      → IsSquare n (set_cell W t i j d)
  unfolding set_cell
  set_cell-IsSquare n t i j d h s = record {
    rows = rw length-set s.rows;
    columns = λ k hk.
        rw (get_or-set t i k (set (get_or t i []) j d) [] (rw s.rows h))
          (elim (Bool-cases (i == k)) [
            | inl e ↦ rw (e, length-set) (s.columns i h)
            | inr e ↦ rw e (s.columns k hk)
          ]);
  }

  pub cell-set_cell :
      (n : ℕ) (t : Table W) (i j : ℕ) (d : Option (RouteInternalData W)) (k l : ℕ)
      → i < n
      → j < n
      → IsSquare n t
      → cell W (set_cell W t i j d) k l ≡ (if i == k && j == l then d else cell W t k l)
  unfolding set_cell
  cell-set_cell n t i j d k l hi hj s =
      rw (get_or-set t i k (set (get_or t i []) j d) [] (rw s.rows hi))
        (elim (Bool-cases (i == k)) [
          | inl e ↦ ground (arith, get_or-set (get_or t i []) j l d none (rw (s.columns i hi) hj))
          | inr e ↦ rw e refl
        ])

  -- A write, seen from one cell.
  pub cell-set_cell_cases :
      (n : ℕ) (t : Table W) (i j : ℕ) (d : Option (RouteInternalData W)) (k l : ℕ)
      → i < n
      → j < n
      → IsSquare n t
      → ((i ≡ k) × (j ≡ l) × (cell W (set_cell W t i j d) k l ≡ d))
        ⊎ ((i == k && j == l) ≡ false) × (cell W (set_cell W t i j d) k l ≡ cell W t k l)
  cell-set_cell_cases n t i j d k l hi hj s = ground (arith, cell-set_cell n t i j d k l hi hj s)

  pub cell-none_column :
      (n : ℕ) (t : Table W) (i j : ℕ) → IsSquare n t → n ≤ j → cell W t i j ≡ none
  cell-none_column n t i j s h = elim (Bool-cases (ltb i n)) [
    | inl inside ↦ get_or_of_length_le (get_or t i []) j none (rw (s.columns i (ground arith)) h)
    | inr outside ↦ rw (get_or_of_length_le t i [] (rw s.rows (ground arith))) refl
  ]

  pub cell-none_row : (n : ℕ) (t : Table W) (i j : ℕ) → IsSquare n t → n ≤ i → cell W t i j ≡ none
  cell-none_row n t i j s h = rw (get_or_of_length_le t i [] (rw s.rows h)) refl
