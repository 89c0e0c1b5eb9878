-- ===== src/EdgeAgent/Metrics.antt =====
-- The class `Metrics` (acs-edge/lib/helpers/typeHandler.ts). An object used as a dictionary is the
-- list of its entries.
pub mod Building
pub mod Lookup
pub mod Finding
pub mod Addresses
use mathlib.Core.List.{map}
use amrc_connectivity_stack.Prelude.{
  ℕ, zero, suc, ◌+◌, ◌≡◌, refl, Bool, true, false, ◌&&◌, ◌||◌, List, [], ◌∷◌, ◌++◌, Option, none,
  some, if◌then◌else◌, ◌==◌, nat_eq, list_eq, length, lookup, put, or_else, lookup_nested,
  put_nested,
}
use amrc_connectivity_stack.Text.{Text, codes}
use amrc_connectivity_stack.EdgeAgent.Types.{DataType, Value, Metric, Properties}
use amrc_connectivity_stack.EdgeAgent.Types.Value.{null}

module _ {A : Type 0} where
  -- `array[i]`
  unfoldable pub nth : ℕ → List A → Option A
  nth i [] = none
  nth zero (x ∷ xs) = some x
  nth (suc i) (x ∷ xs) = nth i xs

  -- A change of `array[i]` in place
  unfoldable pub modify : (A → A) → ℕ → List A → List A
  modify f i [] = []
  modify f zero (x ∷ xs) = f x ∷ xs
  modify f (suc i) (x ∷ xs) = x ∷ modify f i xs

-- `Object.keys`
abbrev pub keys : {K V : Type 0} → List (K × V) → List K
keys m = map (λ e. e.0) m

-- `/GET/.test(s)`, and a match at the start.
abbrev pub starts_get : Text → Bool
starts_get (a ∷ b ∷ c ∷ s) = a == b'G' && b == b'E' && c == b'T'
starts_get _ = false

unfoldable pub has_get : Text → Bool
has_get [] = false
has_get (c ∷ s) = starts_get (c ∷ s) || has_get s

pub record Indices : Type 0 where
  pub name_index : List (Text × ℕ)
  pub addr_index : List (Text × List ℕ)
  pub addr_path_index : List (Text × List (Text × ℕ))

abbrev pub no_indices : Indices
no_indices = record { name_index = []; addr_index = []; addr_path_index = [] }

-- Puts an index under the name of a metric and, if there is one, its address, twice, and its path.
unfoldable pub index_at : Option Text → Text → Text → ℕ → Indices → Indices
index_at none p n i x = record x { name_index = put n i x.name_index }
index_at (some a) p n i x = record {
  name_index = put n i x.name_index;
  addr_index = put a (or_else (lookup a x.addr_index) [] ++ (i ∷ i ∷ [])) x.addr_index;
  addr_path_index = put_nested a p i x.addr_path_index;
}

-- `Date.now()` and `now_ns()` when an operation runs.
pub record Clock : Type 0 where
  pub ms : ℕ
  pub ns : ℕ

-- Whether a number is there and not 0.
abbrev pub given : Option ℕ → Bool
given none = false
given (some zero) = false
given (some (suc n)) = true

module _ {F : Type 0} where
  -- The address of a metric that is read, and its path.
  unfoldable pub readable_addr : Metric F → Option Text
  readable_addr m = elim m.properties [
    | none ↦ none
    | some p ↦ if has_get (or_else p.method []) then p.address else none
  ]

  unfoldable pub path_of : Metric F → Text
  path_of m = elim m.properties [ none ↦ [] | some p ↦ or_else p.path [] ]

  -- One round of `#buildIndices`
  unfoldable pub index_metric : ℕ → Metric F → Indices → Indices
  index_metric i m x = index_at (readable_addr m) (path_of m) (or_else m.name []) i x

  unfoldable pub build_from : ℕ → List (Metric F) → Indices → Indices
  build_from i [] x = x
  build_from i (m ∷ ms) x = build_from (suc i) ms (index_metric i m x)

unfoldable pub addr_path : Text → Text → Indices → Option ℕ
addr_path a p x = lookup_nested a p x.addr_path_index

pub record Metrics (F : Type 0) : Type 0 where
  pub array : List (Metric F)
  pub indices : Indices
  pub alias_index : List (ℕ × ℕ)

module _ {F : Type 0} where
  -- `#buildIndices`, which does not empty the indices first.
  unfoldable pub build_indices : Metrics F → Metrics F
  build_indices x = record x { indices = build_from 0 x.array x.indices }

  -- The constructor
  unfoldable pub of_array : List (Metric F) → Metrics F
  of_array ms = build_indices (record { array = ms; indices = no_indices; alias_index = [] })

  unfoldable pub add : List (Metric F) → Metrics F → Metrics F
  add ms x = build_indices (record x { array = x.array ++ ms })

  -- `setAlias`; `none` is its TypeError, here and below.
  unfoldable pub set_alias : ℕ → ℕ → Metrics F → Option (Metrics F)
  set_alias i alias x = elim (nth i x.array) [
    | none ↦ none
    | some _ ↦ some (record x {
      array = modify (λ (m : Metric F). record m { alias = some alias }) i x.array;
      alias_index = put alias i x.alias_index;
    })
  ]

  unfoldable pub addresses : Metrics F → List Text
  addresses x = keys x.indices.addr_path_index

  abbrev pub at_index : Metrics F → Option ℕ → Option (Metric F)
  at_index x none = none
  at_index x (some i) = nth i x.array

  unfoldable pub get_by_name : Text → Metrics F → Option (Metric F)
  get_by_name n x = at_index x (lookup n x.indices.name_index)

  unfoldable pub get_by_alias : ℕ → Metrics F → Option (Metric F)
  get_by_alias a x = at_index x (lookup a x.alias_index)

  unfoldable pub get_by_address : Text → Metrics F → Option (List (Option (Metric F)))
  get_by_address a x = elim (lookup a x.indices.addr_index) [
    | none ↦ none
    | some is ↦ some (map (λ i. nth i x.array) is)
  ]

  unfoldable pub get_paths_for_addr : Text → Metrics F → List Text
  get_paths_for_addr a x = keys (or_else (lookup a x.indices.addr_path_index) [])

  -- `none` is undefined, or the TypeError where the address is unknown.
  unfoldable pub get_by_addr_path : Text → Text → Metrics F → Option (Metric F)
  get_by_addr_path a p x = at_index x (addr_path a p x.indices)

  -- The new value and times of a metric
  unfoldable pub updated : Clock → Value F → Option ℕ → Option ℕ → Metric F → Metric F
  updated c v t tns m = record m {
    value = v;
    timestamp = if given t then t else some c.ms;
    timestamp_ns = elim tns [ none ↦ if given t then none else some c.ns | some n ↦ some n ];
    is_null = elim v [ null ↦ true | _ ↦ false ];
  }

  unfoldable pub set_value_by_index :
      Clock → ℕ → Value F → Option ℕ → Option ℕ → Metrics F → Option (Metrics F)
  set_value_by_index c i v t tns x = elim (nth i x.array) [
    | none ↦ none
    | some _ ↦ some (record x { array = modify (updated c v t tns) i x.array })
  ]

  abbrev pub set_value_at :
      Clock → Option ℕ → Value F → Option ℕ → Option ℕ → Metrics F → Option (Metrics F)
  set_value_at c none v t tns x = none
  set_value_at c (some i) v t tns x = set_value_by_index c i v t tns x

  unfoldable pub set_value_by_name :
      Clock → Text → Value F → Option ℕ → Option ℕ → Metrics F → Option (Metrics F)
  set_value_by_name c n v t tns x = set_value_at c (lookup n x.indices.name_index) v t tns x

  unfoldable pub set_value_by_alias :
      Clock → ℕ → Value F → Option ℕ → Option ℕ → Metrics F → Option (Metrics F)
  set_value_by_alias c a v t tns x = set_value_at c (lookup a x.alias_index) v t tns x

  unfoldable pub set_value_by_addr_path :
      Clock → Text → Text → Value F → Option ℕ → Option ℕ → Metrics F → Option (Metrics F)
  set_value_by_addr_path c a p v t tns x = set_value_at c (addr_path a p x.indices) v t tns x
