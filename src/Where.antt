-- ===== src/Where.antt =====
-- store/where/where.go: query options, built by functional options or by chained methods. A chained
-- method changes its receiver and returns it, so it is a function from options to options; `none` is
-- a panic. A Go `int` has 64 bits. A map is an association list, and the nil map is `none`.
pub mod Apply
pub mod Paging
pub mod Filters
mod Chained
pub mod Counting
mod Examples
use linhub.Base.{
  Any, Bool, List, Option, Text, [], false, if◌then◌else◌, int64, is_empty, leb_ℤ, length, ltb_ℤ,
  negsuc, none, opaque_value, pos, some, str_eq, string_value, ℤ, ◌%◌, ◌*ℤ◌, ◌++◌, ◌-ℤ◌, ◌==◌,
  ◌>>=◌, ◌∷◌,
}
use mathlib.Core.List.{filter}

pub record QueryCond : Type 0 where
  pub query : Any
  pub args : List Any

pub record JoinClause : Type 0 where
  pub query : Text
  pub args : List Any

pub record PreloadSpec : Type 0 where
  pub association : Text
  pub args : List Any

pub record Options : Type 0 where
  pub offset : ℤ
  pub limit : ℤ
  pub filters : Option (List (Any × Any))
  pub clauses : List Any
  pub queries : List QueryCond
  pub selects : List Text
  pub omits : List Text
  pub orders : List Text
  pub joins : List JoinClause
  pub preloads : List PreloadSpec
  pub groups : List Text
  pub havings : List QueryCond

-- -1, which GORM reads as no limit.
abbrev pub default_limit : ℤ
default_limit = negsuc 0

-- `if n < 0 { n = 0 }`.
abbrev clamp_offset : ℤ → ℤ
clamp_offset n = if ltb_ℤ n (pos 0) then pos 0 else n

-- `if n <= 0 { n = defaultLimit }`.
abbrev clamp_limit : ℤ → ℤ
clamp_limit n = if leb_ℤ n (pos 0) then default_limit else n

-- Functional options.
unfoldable pub with_offset : ℤ → Options → Options
with_offset offset o = record o { offset = clamp_offset offset }

unfoldable pub with_limit : ℤ → Options → Options
with_limit limit o = record o { limit = clamp_limit limit }

unfoldable pub with_page : ℤ → ℤ → Options → Options
with_page page size o =
    let page' = if leb_ℤ page (pos 0) then pos 1 else page in
    let size' = clamp_limit size in
    record o { offset = int64 (int64 (page' -ℤ pos 1) *ℤ size'); limit = size' }

unfoldable pub with_filter : Option (List (Any × Any)) → Options → Options
with_filter filter o = record o { filters = filter }

unfoldable pub with_clauses : List Any → Options → Options
with_clauses conds o = record o { clauses = o.clauses ++ conds }

unfoldable pub with_query : Any → List Any → Options → Options
with_query query args o = record o {
  queries = o.queries ++ record { query = query; args = args } ∷ [];
}

unfoldable pub with_select : List Text → Options → Options
with_select columns o = record o { selects = o.selects ++ columns }

unfoldable pub with_omit : List Text → Options → Options
with_omit columns o = record o { omits = o.omits ++ columns }

unfoldable pub with_order : List Text → Options → Options
with_order orders o = record o { orders = o.orders ++ orders }

unfoldable pub with_join : Text → List Any → Options → Options
with_join query args o = record o { joins = o.joins ++ record { query = query; args = args } ∷ [] }

unfoldable pub with_preload : Text → List Any → Options → Options
with_preload association args o = record o {
  preloads = o.preloads ++ record { association = association; args = args } ∷ [];
}

unfoldable pub with_group : List Text → Options → Options
with_group columns o = record o { groups = o.groups ++ columns }

unfoldable pub with_having : Any → List Any → Options → Options
with_having query args o = record o {
  havings = o.havings ++ record { query = query; args = args } ∷ [];
}

abbrev pub empty_options : Options
empty_options = record {
  offset = pos 0;
  limit = default_limit;
  filters = some [];
  clauses = [];
  queries = [];
  selects = [];
  omits = [];
  orders = [];
  joins = [];
  preloads = [];
  groups = [];
  havings = [];
}

apply_all : List (Options → Options) → Options → Options
apply_all [] o = o
apply_all (f ∷ fs) o = apply_all fs (f o)

-- NewWhere.
unfoldable pub new_where : List (Options → Options) → Options
unfolding apply_all
new_where opts = apply_all opts empty_options

-- Chained methods: O, L, Page.
unfoldable pub set_offset : ℤ → Options → Options
set_offset offset o = record o { offset = clamp_offset offset }

unfoldable pub set_limit : ℤ → Options → Options
set_limit limit o = record o { limit = clamp_limit limit }

unfoldable pub set_page : ℤ → ℤ → Options → Options
set_page page size o =
    let page' = if ltb_ℤ page (pos 1) then pos 1 else page in
    let size' = clamp_limit size in
    record o { offset = int64 (int64 (page' -ℤ pos 1) *ℤ size'); limit = size' }

unfoldable pub any_eq : Any → Any → Bool
unfolding str_eq
any_eq (string_value s) (string_value t) = str_eq s t
any_eq (opaque_value m) (opaque_value n) = m == n
any_eq (string_value _) (opaque_value _) = false
any_eq (opaque_value _) (string_value _) = false

-- `m[key] = value`.
unfoldable pub put : Any → Any → List (Any × Any) → List (Any × Any)
unfolding any_eq
put k v [] = (k, v) ∷ []
put k v ((j, w) ∷ m) = if any_eq j k then (k, v) ∷ m else (j, w) ∷ put k v m

unfoldable pub get : Any → List (Any × Any) → Option Any
unfolding any_eq
get k [] = none
get k ((j, w) ∷ m) = if any_eq j k then some w else get k m

abbrev pub filter_map_of : Option (List (Any × Any)) → List (Any × Any)
filter_map_of none = []
filter_map_of (some m) = m

-- The loop of Filter over the pairs; a key that is not a string panics.
put_pairs : List Any → List (Any × Any) → Option (List (Any × Any))
unfolding put
put_pairs [] m = some m
put_pairs (k ∷ []) m = none
put_pairs (opaque_value _ ∷ _ ∷ kvs) m = none
put_pairs (string_value k ∷ v ∷ kvs) m = put_pairs kvs (put (string_value k) v m)

-- (*Options).Filter: an odd number of arguments panics before anything is stored.
unfoldable pub filter_by : List Any → Options → Option Options
unfolding put_pairs
filter_by kvs o =
    if length kvs % 2 == 0
    then (do m ← put_pairs kvs (filter_map_of o.filters); some (record o { filters = some m }))
    else none

-- RegisterTenant stores a TenantSpec; the context is opaque.
pub record TenantSpec (Ctx : Type 0) : Type 0 where
  pub key : Text
  pub value_func : Option (Ctx → Text)

-- (*Options).Tenant.
unfoldable pub tenant : {Ctx : Type 0} → TenantSpec Ctx → Ctx → Options → Option Options
tenant t ctx o = elim t.value_func [
  | none ↦ some o
  | some f ↦
      if is_empty t.key
      then some o
      else filter_by (string_value t.key ∷ string_value (f ctx) ∷ []) o
]

-- CountOptions; the fields that are left out have their zero values.
unfoldable pub count_options : Options → Options
count_options o = record {
  offset = pos 0;
  limit = default_limit;
  filters = o.filters;
  clauses = o.clauses;
  queries = o.queries;
  selects = [];
  omits = [];
  orders = [];
  joins = o.joins;
  preloads = [];
  groups = o.groups;
  havings = o.havings;
}
