-- ===== src/Where/Apply.antt =====
-- store/where/where.go, (*Options).Where: the calls that options make on a GORM handle. A handle is
-- of a type of GORM's, and `step` is what a chained call makes of it.
use linhub.Base.{
  Any, Bool, List, Text, [], eq_ℤ, if◌then◌else◌, length, ltb, ltb_ℤ, pos, ℤ, ◌||◌, ◌∷◌,
}
use linhub.Where.{JoinClause, Options, PreloadSpec, QueryCond, default_limit, filter_map_of}

-- A chained call with its arguments; `model` and `order` are also made by the store.
pub data Call : Type 0 where
  joins : JoinClause → Call
  where_map : List (Any × Any) → Call
  where_query : QueryCond → Call
  clauses : List Any → Call
  group : Text → Call
  having : QueryCond → Call
  preload : PreloadSpec → Call
  select : List Text → Call
  omit : List Text → Call
  order : Text → Call
  offset : ℤ → Call
  limit : ℤ → Call
  model : Call

module _ {Db : Type 0} (step : Call → Db → Db) where
  unfoldable pub each : {A : Type 0} → (A → Call) → List A → Db → Db
  each call [] db = db
  each call (a ∷ as') db = each call as' (step (call a) db)

  unfoldable pub when : Bool → Call → Db → Db
  when b call db = if b then step call db else db

  unfoldable pub where_ : Options → Db → Db
  unfolding each when
  where_ o db =
      let m = filter_map_of o.filters in
      let db₁ = each joins o.joins db in
      let db₂ = when (ltb 0 (length m)) (where_map m) db₁ in
      let db₃ = each where_query o.queries db₂ in
      let db₄ = when (ltb 0 (length o.clauses)) (clauses o.clauses) db₃ in
      let db₅ = each group o.groups db₄ in
      let db₆ = each having o.havings db₅ in
      let db₇ = each preload o.preloads db₆ in
      let db₈ = when (ltb 0 (length o.selects)) (select o.selects) db₇ in
      let db₉ = when (ltb 0 (length o.omits)) (omit o.omits) db₈ in
      let db₁₀ = each order o.orders db₉ in
      let db₁₁ = when (ltb_ℤ (pos 0) o.offset) (offset o.offset) db₁₀ in
      when (ltb_ℤ (pos 0) o.limit || eq_ℤ o.limit default_limit) (limit o.limit) db₁₁
