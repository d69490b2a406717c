-- ===== src/Journal/Fields.antt =====
-- internal/journal/record/fields.go: field maps, as lists of entries in which a key stands once.
pub mod Laws
use glovebox.Prelude.{
  ℕ, Bool, true, false, not, ◌&&◌, ◌||◌, List, [], ◌∷◌, map, Bytes, eq_bytes, lt_bytes, Option,
  none, some, if◌then◌else◌, any,
}
use glovebox.Journal.Names.{RawMessage}

-- A Go map from names to values of type V.
abbrev pub Assoc : Type 0 → Type 0
Assoc V = List (Bytes × V)

abbrev pub Fields : Type 0
Fields = Assoc RawMessage

module _ {V : Type 0} where
  -- v, ok := m[k]
  unfoldable pub find : Assoc V → Bytes → Option V
  find [] k = none
  find ((j, v) ∷ m) k = if eq_bytes j k then some v else find m k

  -- m[k] = v
  unfoldable pub put : Assoc V → Bytes → V → Assoc V
  put [] k v = (k, v) ∷ []
  put ((j, w) ∷ m) k v = if eq_bytes j k then (k, v) ∷ m else (j, w) ∷ put m k v

  -- delete(m, k)
  unfoldable pub delete : Assoc V → Bytes → Assoc V
  delete [] k = []
  delete ((j, w) ∷ m) k = let rest = delete m k in if eq_bytes j k then rest else (j, w) ∷ rest

  -- The keys, in no particular order.
  abbrev pub map_keys : Assoc V → List Bytes
  map_keys = map (λ e. e.0)

-- f[k], which is nil for a missing key
unfoldable pub get : Fields → Bytes → RawMessage
get f k = elim (find f k) [ none ↦ none | some v ↦ v ]

abbrev pub or_empty : RawMessage → Bytes
or_empty none = []
or_empty (some v) = v

-- bytes.Equal: nil and empty are equal
unfoldable pub raw_equal : RawMessage → RawMessage → Bool
raw_equal a b = eq_bytes (or_empty a) (or_empty b)

-- sort.Slice by an order: insertion sort
module _ (less : Bytes → Bytes → Bool) where
  unfoldable pub insert_by : Bytes → List Bytes → List Bytes
  insert_by x [] = x ∷ []
  insert_by x (y ∷ ys) = if less y x then y ∷ insert_by x ys else x ∷ y ∷ ys

  unfoldable pub sort_by : List Bytes → List Bytes
  sort_by [] = []
  sort_by (x ∷ xs) = insert_by x (sort_by xs)

-- sort.Strings
unfoldable pub sort_strings : List Bytes → List Bytes
sort_strings = sort_by lt_bytes

-- Keys
pub keys : Fields → List Bytes
keys f = sort_strings (map_keys f)
