-- ===== src/Config.antt =====
-- cpp/common/confreader/confreader.h and confreader.cpp: the values, which stand in a std::multimap in
-- the order of the names' bytes, equal names in the order of their insertion; `find` gives the first
-- of them. `get<T>` with its conversion is a parameter, `lexical_cast`.
pub mod Args
pub mod Blank
pub mod CommandLine
pub mod File
pub mod Line
pub mod Lines
pub mod Loaded
pub mod Order
pub mod Override
pub mod Print
pub mod Sorted
mod Tests
use nrtb_redo.Common.{
  ℕ, Bool, true, false, List, [], ◌∷◌, ◌++◌, Option, none, some, if◌then◌else◌, length, ltb, ◌==◌,
  map,
}
use nrtb_redo.Common.Bytes.{Bytes, same_bytes}

abbrev pub Values : Type 0
Values = List (Bytes × Bytes)

pub record Config : Type 0 where
  pub values : Values
  pub filename : Bytes
  -- The file names in the warnings that were written to `cerr`.
  pub warnings : List Bytes

-- `std::less<std::string>`
unfoldable pub less : Bytes → Bytes → Bool
less [] [] = false
less [] (d ∷ t) = true
less (c ∷ s) [] = false
less (c ∷ s) (d ∷ t) = if ltb c d then true else if c == d then less s t else false

-- `values.insert(arg)`
unfoldable pub insert_value : Bytes → Bytes → Values → Values
unfolding less
insert_value k v [] = (k, v) ∷ []
insert_value k v ((j, w) ∷ rest) =
    if less k j then (k, v) ∷ (j, w) ∷ rest else (j, w) ∷ insert_value k v rest

-- What `values.find(key)` points to, with all that follows.
unfoldable pub find_value : Bytes → Values → Values
find_value k [] = []
find_value k ((j, w) ∷ rest) = if same_bytes j k then (j, w) ∷ rest else find_value k rest

-- The loop of `all`.
unfoldable pub equal_run : Bytes → Values → List Bytes
equal_run k [] = []
equal_run k ((j, w) ∷ rest) = if same_bytes j k then w ∷ equal_run k rest else []

unfoldable pub all : Bytes → Values → List Bytes
unfolding find_value equal_run
all k vs = equal_run k (find_value k vs)

abbrev pub first_or_nil : Values → Bytes
first_or_nil [] = []
first_or_nil ((j, w) ∷ rest) = w

-- `operator []`
unfoldable pub value_of : Bytes → Values → Bytes
unfolding find_value
value_of k vs = first_or_nil (find_value k vs)

abbrev pub is_found : Values → Bool
is_found [] = false
is_found (v ∷ vs) = true

unfoldable pub exists : Bytes → Values → Bool
unfolding find_value
exists k vs = is_found (find_value k vs)

unfoldable pub empty : Values → Bool
empty [] = true
empty (v ∷ vs) = false

unfoldable pub size : Values → ℕ
size vs = length vs

unfoldable pub clear : Config → Config
clear c = record c { values = [] }

module _ {T : Type 0} (lexical_cast : Bytes → T) where
  unfoldable pub get : Bytes → Values → T
  unfolding value_of
  get k vs = lexical_cast (value_of k vs)

  unfoldable pub get_default : Bytes → T → Values → T
  unfolding exists get
  get_default k def vs = if exists k vs then get k vs else def

  -- `getall`; `lexical_cast` throws for no text.
  unfoldable pub get_all : Bytes → Values → List T
  unfolding all
  get_all k vs = map lexical_cast (all k vs)
