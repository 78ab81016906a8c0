-- ===== src/Where/Chained.antt =====
-- store/where/where.go: the chained methods that append to a list of the options, the functions of
-- the package that start from new options, and the registered tenant. The short names (C, Q, T and
-- the like) only call the long ones.
use linhub.Base.{Any, List, Option, Text, [], none, refl, some, ℤ, ◌++◌, ◌∷◌, ◌≡◌}
use linhub.Where.{
  Options, TenantSpec, filter_by, new_where, set_limit, set_offset, set_page, tenant, with_clauses,
  with_group, with_having, with_join, with_omit, with_order, with_preload, with_query, with_select,
}

unfoldable add_clauses : List Any → Options → Options
add_clauses conds o = record o { clauses = o.clauses ++ conds }

unfoldable add_query : Any → List Any → Options → Options
add_query query args o = record o {
  queries = o.queries ++ record { query = query; args = args } ∷ [];
}

unfoldable add_select : List Text → Options → Options
add_select columns o = record o { selects = o.selects ++ columns }

unfoldable add_omit : List Text → Options → Options
add_omit columns o = record o { omits = o.omits ++ columns }

unfoldable add_order : List Text → Options → Options
add_order orders o = record o { orders = o.orders ++ orders }

unfoldable add_join : Text → List Any → Options → Options
add_join query args o = record o { joins = o.joins ++ record { query = query; args = args } ∷ [] }

unfoldable add_preload : Text → List Any → Options → Options
add_preload association args o = record o {
  preloads = o.preloads ++ record { association = association; args = args } ∷ [];
}

unfoldable add_group : List Text → Options → Options
add_group columns o = record o { groups = o.groups ++ columns }

unfoldable add_having : Any → List Any → Options → Options
add_having query args o = record o {
  havings = o.havings ++ record { query = query; args = args } ∷ [];
}

-- The functions of the package: Offset, Limit, Page, Filter, Clause, Query, Tenant, Select, Omit,
-- Order, Join, Preload, Group, Having. Filter and Tenant panic as their methods do.
unfoldable new_offset : ℤ → Options
new_offset offset = set_offset offset (new_where [])

unfoldable new_limit : ℤ → Options
new_limit limit = set_limit limit (new_where [])

unfoldable new_page : ℤ → ℤ → Options
new_page page size = set_page page size (new_where [])

unfoldable new_filter : List Any → Option Options
new_filter kvs = filter_by kvs (new_where [])

unfoldable new_clauses : List Any → Options
new_clauses conds = add_clauses conds (new_where [])

unfoldable new_query : Any → List Any → Options
new_query query args = add_query query args (new_where [])

unfoldable new_tenant : {Ctx : Type 0} → TenantSpec Ctx → Ctx → Option Options
new_tenant t ctx = tenant t ctx (new_where [])

unfoldable new_select : List Text → Options
new_select columns = add_select columns (new_where [])

unfoldable new_omit : List Text → Options
new_omit columns = add_omit columns (new_where [])

unfoldable new_order : List Text → Options
new_order orders = add_order orders (new_where [])

unfoldable new_join : Text → List Any → Options
new_join query args = add_join query args (new_where [])

unfoldable new_preload : Text → List Any → Options
new_preload association args = add_preload association args (new_where [])

unfoldable new_group : List Text → Options
new_group columns = add_group columns (new_where [])

unfoldable new_having : Any → List Any → Options
new_having query args = add_having query args (new_where [])

-- The value of registeredTenant before and after a RegisterTenant.
unfoldable no_tenant : {Ctx : Type 0} → TenantSpec Ctx
no_tenant = record { key = []; value_func = none }

unfoldable register_tenant :
    {Ctx : Type 0} → Text → Option (Ctx → Text) → TenantSpec Ctx → TenantSpec Ctx
register_tenant key f _ = record { key = key; value_func = f }

-- A chained method appends what the functional option of the same name appends.
appending_methods_agree :
    (as' : List Any) (a : Any) (ts : List Text) (t : Text) (o : Options)
    → (add_clauses as' o ≡ with_clauses as' o)
      × (add_query a as' o ≡ with_query a as' o)
      × (add_select ts o ≡ with_select ts o)
      × (add_omit ts o ≡ with_omit ts o)
      × (add_order ts o ≡ with_order ts o)
      × (add_join t as' o ≡ with_join t as' o)
      × (add_preload t as' o ≡ with_preload t as' o)
      × (add_group ts o ≡ with_group ts o)
      × (add_having a as' o ≡ with_having a as' o)
unfolding add_clauses add_query add_select add_omit add_order add_join add_preload add_group
    add_having with_clauses with_query with_select with_omit with_order with_join with_preload
    with_group with_having
appending_methods_agree as' a ts t o = (refl, refl, refl, refl, refl, refl, refl, refl, refl)

-- With nobody registered, and after a registration that clears it, the tenant leaves all options
-- as they are.
tenant-no_tenant :
    {Ctx : Type 0} (old : TenantSpec Ctx) (ctx : Ctx) (o : Options)
    → (tenant no_tenant ctx o ≡ some o) × (tenant (register_tenant [] none old) ctx o ≡ some o)
unfolding tenant no_tenant register_tenant
tenant-no_tenant old ctx o = (refl, refl)
