-- ===== src/Store.antt =====
-- store/store.go: the generic store over GORM. What GORM does with a handle is a parameter: the
-- chained calls, and the final calls, which act on the world. A log entry is the error and the
-- message; `none` is a panic. A nil *where.Options is `none`.
pub mod Answers
pub mod Transactions
pub mod Listing
mod Examples
use mathlib.Core.Option
use linhub.Base.{
  Any, Bool, List, Option, Text, [], codes, false, if◌then◌else◌, is_empty, ltb_ℤ, map, none, pos,
  some, true, ℤ, ◌++◌, ◌>>=◌, ◌∷◌,
}
use linhub.Where.{Options, count_options}
use linhub.Where.Apply.{Call, model, order, select, where_}

-- GORM at a model type T; `primary_key` is the column that schema.Parse finds, if it finds one.
pub record Gorm (Db W T E : Type 0) : Type 0 where
  pub step : Call → Db → Db
  pub model_of : T → Db → Db
  pub create_row : Db → T → W → T × Option E × W
  pub save_row : Db → T → W → T × Option E × W
  pub updates_map : Db → List (Text × Any) → W → ℤ × Option E × W
  pub updates : Db → T → W → (T × ℤ) × Option E × W
  pub delete_rows : Db → W → ℤ × Option E × W
  pub first_row : Db → W → T × Option E × W
  pub count_rows : Db → W → ℤ × Option E × W
  pub find_rows : Db → W → List T × Option E × W
  pub primary_key : Option Text

-- A context: the handle under txKey (nil or none is `none`) and the rest.
pub record Ctx (K Db : Type 0) : Type 0 where
  pub tx : Option Db
  pub rest : K

-- WithTx and TxFromContext.
unfoldable pub with_tx : {K Db : Type 0} → Ctx K Db → Option Db → Ctx K Db
with_tx ctx tx' = record ctx { tx = tx' }

unfoldable pub tx_from_context : {K Db : Type 0} → Ctx K Db → Option Db
tx_from_context ctx = ctx.tx

-- The world and the log, newest entry first.
pub record State (W E : Type 0) : Type 0 where
  pub world : W
  pub log : List (E × Text)

-- Ends an operation: an error is logged and returned with `failure`.
unfoldable pub settle :
    {W E R : Type 0} → Text → R → R → Option E → W → List (E × Text) → R × Option E × State W E
settle message failure value none w l = (value, none, record { world = w; log = l })
settle message failure value (some e) w l =
    (failure, some e, record { world = w; log = (e, message) ∷ l })

-- What an operation returns, by its kind.
pub data Answer (T : Type 0) : Type 0 where
  stored : T → Answer T
  rows : ℤ → Answer T
  changed : T → ℤ → Answer T
  found : Option T → Answer T
  exists_ : Bool → Answer T
  page : ℤ → List T → Answer T

-- The methods with their arguments.
pub data Operation (T : Type 0) : Type 0 where
  create_op : T → Operation T
  update_op : T → Operation T
  update_partial_op : Option Options → List (Text × Any) → Operation T
  update_columns_op : Option Options → T → List Text → Operation T
  delete_op : Option Options → Operation T
  get_op : Option Options → Operation T
  count_op : Option Options → Operation T
  exists_op : Option Options → Operation T
  list_op : Option Options → Operation T

fallback_order : Text
fallback_order = codes "id desc"

-- defaultOrder.
unfoldable pub default_order : Option Text → Text
unfolding fallback_order
default_order none = fallback_order
default_order (some pk) = if is_empty pk then fallback_order else pk ++ codes " desc"

-- len(xs) == 0.
no_elements : {A : Type 0} → List A → Bool
no_elements [] = true
no_elements (x ∷ xs) = false

exists_counted : {W E : Type 0} → ℤ × Option E × State W E → Bool × Option E × State W E
exists_counted (n, some e, s) = (false, some e, s)
exists_counted (n, none, s) = (ltb_ℤ (pos 0) n, none, s)

answer :
    {W T E R : Type 0} → (R → Answer T) → R × Option E × State W E → Answer T × Option E × State W E
answer f (r, err, s) = (f r, err, s)

no_orders : Option Options → Bool
unfolding no_elements
no_orders none = true
no_orders (some o) = no_elements o.orders

module _ {Db W T E : Type 0} (g : Gorm Db W T E) where
  -- The loop of db: the nil interface is skipped, and a nil pointer in an interface panics.
  unfoldable pub apply_wheres : List (Option (Option Options)) → Db → Option Db
  apply_wheres [] h = some h
  apply_wheres (none ∷ ws) h = apply_wheres ws h
  apply_wheres (some none ∷ ws) h = none
  apply_wheres (some (some o) ∷ ws) h = apply_wheres ws (where_ g.step o h)

  -- The handle that Count counts with.
  unfoldable pub count_query : Option Options → Db → Db
  count_query none h = g.step model h
  count_query (some o) h = where_ g.step (count_options o) (g.step model h)

  -- The handle countDB of List.
  counted : Option Options → Db → Db
  counted none h = g.step model h
  counted (some o) h = where_ g.step (count_options o) (g.step model h)

  narrowed : Option Options → Db → Db
  narrowed none h = h
  narrowed (some o) h = where_ g.step o h

  -- The handle that List finds with.
  unfoldable pub list_query : Option Options → Db → Db
  unfolding default_order no_orders narrowed
  list_query opts h =
      let h' = narrowed opts h in
      if no_orders opts then g.step (order (default_order g.primary_key)) h' else h'

  module _ {K : Type 0} (storage : Ctx K Db → Db) (ctx : Ctx K Db) where
    unfoldable pub raw : Db
    unfolding tx_from_context
    raw = elim (tx_from_context ctx) [ none ↦ storage ctx | some h ↦ h ]

    unfoldable pub db : List (Option (Option Options)) → Option Db
    unfolding raw apply_wheres
    db wheres = apply_wheres wheres raw

    unfoldable pub create : T → State W E → Option (T × Option E × State W E)
    unfolding db settle
    create obj s = do
      h ← db []
      let (obj', err, w) = g.create_row h obj s.world
      some (settle (codes "Failed to insert object into database") obj' obj' err w s.log)

    -- Update.
    unfoldable pub update : T → State W E → Option (T × Option E × State W E)
    unfolding db settle
    update obj s = do
      h ← db []
      let (obj', err, w) = g.save_row h obj s.world
      some (settle (codes "Failed to update object in database") obj' obj' err w s.log)

    unfoldable pub update_partial :
        Option Options → List (Text × Any) → State W E → Option (ℤ × Option E × State W E)
    unfolding db settle no_elements
    update_partial opts attrs s = if no_elements attrs then some (pos 0, none, s) else (do
      h ← db (some opts ∷ [])
      let (n, err, w) = g.updates_map (g.step model h) attrs s.world
      some (settle (codes "Failed to partial-update object") (pos 0) n err w s.log))

    unfoldable pub update_columns :
        Option Options → T → List Text → State W E → Option ((T × ℤ) × Option E × State W E)
    unfolding db settle no_elements
    update_columns opts obj columns s =
        if no_elements columns then some ((obj, pos 0), none, s) else (do
          h ← db (some opts ∷ [])
          let ((obj', n), err, w) =
              g.updates (g.step (select columns) (g.model_of obj h)) obj s.world
          some (settle (codes "Failed to update columns") (obj', pos 0) (obj', n) err w s.log))

    unfoldable pub delete : Option Options → State W E → Option (ℤ × Option E × State W E)
    unfolding db settle
    delete opts s = do
      h ← db (some opts ∷ [])
      let (n, err, w) = g.delete_rows h s.world
      some (settle (codes "Failed to delete object from database") (pos 0) n err w s.log)

    -- Get.
    unfoldable pub get_one : Option Options → State W E → Option (Option T × Option E × State W E)
    unfolding db settle
    get_one opts s = do
      h ← db (some opts ∷ [])
      let (obj, err, w) = g.first_row h s.world
      some (settle (codes "Failed to retrieve object from database") none (some obj) err w s.log)

    unfoldable pub count : Option Options → State W E → ℤ × Option E × State W E
    unfolding raw count_query settle
    count opts s =
        let (n, err, w) = g.count_rows (count_query opts raw) s.world in
        settle (codes "Failed to count objects from database") (pos 0) n err w s.log

    unfoldable pub exists : Option Options → State W E → Bool × Option E × State W E
    unfolding exists_counted count
    exists opts s = exists_counted (count opts s)

    -- The second half of List, after the count.
    pub find_counted :
        Option Options → ℤ × Option E × State W E → (ℤ × List T) × Option E × State W E
    unfolding raw list_query settle
    find_counted opts (n, some e, s) = ((pos 0, []), some e, s)
    find_counted opts (n, none, s) =
        let (ret, err, w) = g.find_rows (list_query opts raw) s.world in
        settle (codes "Failed to list objects from database") (pos 0, []) (n, ret) err w s.log

    -- List, which has the code of its count written out.
    unfoldable pub list : Option Options → State W E → (ℤ × List T) × Option E × State W E
    unfolding find_counted raw settle counted
    list opts s =
        let (n, err, w) = g.count_rows (counted opts raw) s.world in
        find_counted opts
          (settle (codes "Failed to count objects from database") (pos 0) n err w s.log)

    unfoldable pub perform : Operation T → State W E → Option (Answer T × Option E × State W E)
    unfolding answer
    perform (create_op obj) s = Option.map (answer stored) (create obj s)
    perform (update_op obj) s = Option.map (answer stored) (update obj s)
    perform (update_partial_op opts attrs) s =
        Option.map (answer rows) (update_partial opts attrs s)
    perform (update_columns_op opts obj columns) s =
        Option.map (answer (λ (o, n). changed o n)) (update_columns opts obj columns s)
    perform (delete_op opts) s = Option.map (answer rows) (delete opts s)
    perform (get_op opts) s = Option.map (answer found) (get_one opts s)
    perform (count_op opts) s = some (answer rows (count opts s))
    perform (exists_op opts) s = some (answer exists_ (exists opts s))
    perform (list_op opts) s = some (answer (λ (n, l). page n l) (list opts s))
