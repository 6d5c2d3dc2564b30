-- ===== src/Parser/HashMap.antt =====
-- `HashMap` of Rust's standard library, as the list of its entries in the order in which it is
-- iterated. The order is arbitrary in Rust; here a new key comes last.
use sml_rs.Base.{
  Bool, true, false, ◌≡◌, refl, inl, inr, ◌↔◌, if◌then◌else◌, Bool-cases, Option, none, some, List,
  [], ◌∷◌, arith,
}

abbrev pub HashMap : Type 0 → Type 0 → Type 0
HashMap K V = List (K × V)

-- `==` on keys answers whether they are equal.
pub record IsEquality {K : Type 0} (same : K → K → Bool) : Type 0 where
  pub same_iff : (a b : K) → (same a b ≡ true) ↔ (a ≡ b)

module _ {K V : Type 0} (same : K → K → Bool) where
  unfoldable pub get : HashMap K V → K → Option V
  get [] key = none
  get ((k, v) ∷ entries) key = if same k key then some v else get entries key

  unfoldable pub insert : HashMap K V → K → V → HashMap K V
  insert [] key value = (key, value) ∷ []
  insert ((k, v) ∷ entries) key value =
      if same k key then (k, value) ∷ entries else (k, v) ∷ insert entries key value

  unfoldable pub contains_key : HashMap K V → K → Bool
  unfolding get
  contains_key m key = elim (get m key) [ none ↦ false | some _ ↦ true ]

pub get-cons :
    {K V : Type 0} (same : K → K → Bool) (k : K) (v : V) (m : HashMap K V) (j : K)
    → get same ((k, v) ∷ m) j ≡ (if same k j then some v else get same m j)
unfolding get
get-cons same k v m j = refl

abbrev pub map_option : {V W : Type 0} → (V → W) → Option V → Option W
map_option f none = none
map_option f (some v) = some (f v)

-- `values_mut` with an assignment to each value.
abbrev pub map_values : {K V W : Type 0} → (V → W) → HashMap K V → HashMap K W
map_values f [] = []
map_values f ((k, v) ∷ entries) = (k, f v) ∷ map_values f entries

module _ {K : Type 0} {same : K → K → Bool} (c : IsEquality same) where
  pub same_refl : (k : K) → same k k ≡ true
  same_refl k = (c.same_iff k k).1 refl

  pub same_sym : (a b : K) → same a b ≡ same b a
  same_sym a b = ground (arith, c.same_iff a b, c.same_iff b a)

module _ {K V : Type 0} {same : K → K → Bool} (c : IsEquality same) where
  -- Looking a key up after an insertion.
  pub get-insert :
      (m : HashMap K V) (j k : K) (v : V)
      → get same (insert same m j v) k ≡ (if same j k then some v else get same m k)
  unfolding get insert
  get-insert [] j k v = refl
  get-insert ((i, w) ∷ m) j k v =
      ground (arith, c.same_iff i j, c.same_iff i k, c.same_iff j k, get-insert m j k v)

pub get-map_values :
    {K V W : Type 0} (same : K → K → Bool) (f : V → W) (m : HashMap K V) (k : K)
    → get same (map_values f m) k ≡ map_option f (get same m k)
unfolding get
get-map_values same f [] k = refl
get-map_values same f ((j, v) ∷ m) k = elim (Bool-cases (same j k)) [
  | inl e ↦ rw e
  | inr e ↦ rw e (get-map_values same f m k)
]
