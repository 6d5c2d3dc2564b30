-- ===== src/Tests/Regions.antt =====
-- The regions of a machine with two orthogonal regions.
use sml_rs.Base.{
  ◌≡◌, ◌≢◌, refl, true, false, arith, map, List, [], ◌∷◌, ℕ, get_elem?, some, ok, err,
}
use sml_rs.Parser.Names.{StateTransition}
use sml_rs.Orthogonal.{Region, overlap, unconnected, out_of_fuel, has, initials, discover_regions}
use sml_rs.Orthogonal.Adjacency.{moves}
use sml_rs.Orthogonal.Discovered.{
  discover_regions_ends, discover_regions_disjoint, discover_regions_start, discover_regions_closed,
}
use sml_rs.Tests.Validations.{numbers, numbers_equal, row}

abbrev starting : StateTransition numbers → StateTransition numbers
starting r = record r { in_state = record (r.in_state) { start = true } }

-- States 1, 2 and 3 in one region, 4 and 5 in the other.
abbrev two_regions : List (StateTransition numbers)
two_regions =
    starting (row (1, 101) (2, 102))
    ∷ row (2, 102) (3, 103)
    ∷ starting (row (4, 104) (5, 105))
    ∷ row (3, 103) (1, 101)
    ∷ []

abbrev first : Region numbers
first = record { initial = 1; states = 3 ∷ 2 ∷ 1 ∷ [] }

abbrev second : Region numbers
second = record { initial = 4; states = 5 ∷ 4 ∷ [] }

discovered : discover_regions numbers two_regions ≡ ok (first ∷ second ∷ [])
unfolding discover_regions
discovered = refl

two_starts_in_one :
    discover_regions numbers
      (starting (row (1, 101) (2, 102)) ∷ starting (row (2, 102) (1, 101)) ∷ [])
    ≡ err (overlap 2)
unfolding discover_regions
two_starts_in_one = refl

apart :
    discover_regions numbers (starting (row (1, 101) (2, 102)) ∷ row (3, 103) (4, 104) ∷ [])
    ≡ err (unconnected 3)
unfolding discover_regions
apart = refl

discover_regions_ends_example : discover_regions numbers two_regions ≢ err out_of_fuel
discover_regions_ends_example = discover_regions_ends numbers numbers_equal two_regions

discover_regions_disjoint_example : has numbers second.states 2 ≡ false
discover_regions_disjoint_example =
    discover_regions_disjoint numbers numbers_equal two_regions (first ∷ second ∷ []) discovered 0 1
      first second 2 refl refl (λ e. omega (arith, e)) refl

discover_regions_start_example :
    (map (λ (r : Region numbers). r.initial) (first ∷ second ∷ []) ≡ initials numbers two_regions)
    × ((i : ℕ) (r : Region numbers)
        → get_elem? (first ∷ second ∷ []) i ≡ some r
        → has numbers r.states r.initial ≡ true)
discover_regions_start_example =
    discover_regions_start numbers numbers_equal two_regions (first ∷ second ∷ []) discovered

discover_regions_closed_example :
    (k : ℕ) × (r : Region numbers) × (get_elem? (first ∷ second ∷ []) k ≡ some r)
    × (has numbers r.states 3 ≡ true)
    × (moves numbers (row (3, 103) (1, 101)) ≡ true → has numbers r.states 1 ≡ true)
discover_regions_closed_example =
    discover_regions_closed numbers numbers_equal two_regions (first ∷ second ∷ []) discovered 3
      (row (3, 103) (1, 101)) refl refl
