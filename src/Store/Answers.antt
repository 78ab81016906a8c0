-- ===== src/Store/Answers.antt =====
-- store/store.go: panics, errors and the log, for all the methods of a store.
use mathlib.Core.Option.{some-injective}
use mathlib.Core.Path.{subst}
use linhub.Base.{
  List, Option, Text, [], ap, arith, if◌then◌else◌, none, refl, some, ℤ, ◌↔◌, ◌∙◌, ◌∷◌, ◌≡◌,
}
use linhub.Where.{Options}
use linhub.Store.{
  Answer, Ctx, Gorm, Operation, State, apply_wheres, count, count_op, create, create_op, db, delete,
  delete_op, exists, exists_counted, exists_op, find_counted, get_one, get_op, list, list_op,
  no_elements, perform, settle, update, update_columns, update_columns_op, update_op,
  update_partial, update_partial_op,
}

-- The operations that build a query from their options and have something to do.
pub narrows : {T : Type 0} → Operation T → Option (Option Options)
narrows (update_partial_op opts attrs) = if no_elements attrs then none else some opts
narrows (update_columns_op opts obj columns) = if no_elements columns then none else some opts
narrows (delete_op opts) = some opts
narrows (get_op opts) = some opts
narrows (create_op obj) = none
narrows (update_op obj) = none
narrows (count_op opts) = none
narrows (exists_op opts) = none
narrows (list_op opts) = none

-- The log after an error, if there was one.
abbrev pub errors_of : {E : Type 0} → Option E → List E → List E
errors_of none l = l
errors_of (some e) l = e ∷ l

pub logged_errors : {E : Type 0} → List (E × Text) → List E
logged_errors [] = []
logged_errors ((e, message) ∷ l) = e ∷ logged_errors l

settle-log :
    {W E R : Type 0} (message : Text) (failure value : R) (err : Option E) (w : W)
    (l : List (E × Text))
    → logged_errors (settle message failure value err w l).2.log
      ≡ errors_of (settle message failure value err w l).1 (logged_errors l)
unfolding settle logged_errors
settle-log message failure value none w l = refl
settle-log message failure value (some e) w l = refl

module _ {Db W T E K : Type 0} (g : Gorm Db W T E) (storage : Ctx K Db → Db) (ctx : Ctx K Db) where
  -- A method panics exactly when it is given nil options and is one of those that build their
  -- query from them: Delete, Get, and UpdatePartial and UpdateColumns with something to update.
  -- Create, Update, Count, Exists and List never panic.
  pub perform-eq-none_iff :
      (op : Operation T) (s : State W E)
      → (perform g storage ctx op s ≡ none) ↔ (narrows op ≡ some none)
  unfolding perform narrows create update update_partial update_columns delete get_one db
      apply_wheres
  perform-eq-none_iff (create_op obj) s = ground arith
  perform-eq-none_iff (update_op obj) s = ground arith
  perform-eq-none_iff (update_partial_op none []) s = ground arith
  perform-eq-none_iff (update_partial_op none (x ∷ xs)) s = ground arith
  perform-eq-none_iff (update_partial_op (some o) []) s = ground arith
  perform-eq-none_iff (update_partial_op (some o) (x ∷ xs)) s = ground arith
  perform-eq-none_iff (update_columns_op none obj []) s = ground arith
  perform-eq-none_iff (update_columns_op none obj (x ∷ xs)) s = ground arith
  perform-eq-none_iff (update_columns_op (some o) obj []) s = ground arith
  perform-eq-none_iff (update_columns_op (some o) obj (x ∷ xs)) s = ground arith
  perform-eq-none_iff (delete_op none) s = ground arith
  perform-eq-none_iff (delete_op (some o)) s = ground arith
  perform-eq-none_iff (get_op none) s = ground arith
  perform-eq-none_iff (get_op (some o)) s = ground arith
  perform-eq-none_iff (count_op opts) s = ground arith
  perform-eq-none_iff (exists_op opts) s = ground arith
  perform-eq-none_iff (list_op opts) s = ground arith

  kept : {A : Type 0} (P : A → Type 0) {a b : A} → some a ≡ some b → P a → P b
  kept P e p = subst P (some-injective _ _ e) p

  LogsTo : State W E → Answer T × Option E × State W E → Type 0
  LogsTo s r = logged_errors r.2.log ≡ errors_of r.1 (logged_errors s.log)

  exists_counted-LogsTo :
      (s : State W E) (r : ℤ × Option E × State W E)
      → logged_errors r.2.log ≡ errors_of r.1 (logged_errors s.log)
      → logged_errors (exists_counted r).2.log
        ≡ errors_of (exists_counted r).1 (logged_errors s.log)
  unfolding exists_counted
  exists_counted-LogsTo s (n, none, s') h = h
  exists_counted-LogsTo s (n, some e, s') h = h

  find_counted-LogsTo :
      (s : State W E) (opts : Option Options) (r : ℤ × Option E × State W E)
      → logged_errors r.2.log ≡ errors_of r.1 (logged_errors s.log)
      → logged_errors (find_counted g storage ctx opts r).2.log
        ≡ errors_of (find_counted g storage ctx opts r).1 (logged_errors s.log)
  unfolding find_counted
  find_counted-LogsTo s opts (n, none, s') h = settle-log _ _ _ _ _ _ ∙ ap (errors_of _) h
  find_counted-LogsTo s opts (n, some e, s') h = h

  -- A method adds its error to the log, once, when it returns one, and nothing when it returns none.
  pub perform-log :
      (op : Operation T) (s s' : State W E) (a : Answer T) (err : Option E)
      → perform g storage ctx op s ≡ some (a, err, s')
      → logged_errors s'.log ≡ errors_of err (logged_errors s.log)
  unfolding perform create update update_partial update_columns delete get_one count exists list db
      narrows apply_wheres LogsTo
  perform-log (create_op obj) s s' a err h = kept (LogsTo s) h (settle-log _ _ _ _ _ _)
  perform-log (update_op obj) s s' a err h = kept (LogsTo s) h (settle-log _ _ _ _ _ _)
  perform-log (update_partial_op opts []) s s' a err h = kept (LogsTo s) h refl
  perform-log (update_partial_op none (x ∷ xs)) s s' a err h = cc
  perform-log (update_partial_op (some o) (x ∷ xs)) s s' a err h =
      kept (LogsTo s) h (settle-log _ _ _ _ _ _)
  perform-log (update_columns_op opts obj []) s s' a err h = kept (LogsTo s) h refl
  perform-log (update_columns_op none obj (x ∷ xs)) s s' a err h = cc
  perform-log (update_columns_op (some o) obj (x ∷ xs)) s s' a err h =
      kept (LogsTo s) h (settle-log _ _ _ _ _ _)
  perform-log (delete_op none) s s' a err h = cc
  perform-log (delete_op (some o)) s s' a err h = kept (LogsTo s) h (settle-log _ _ _ _ _ _)
  perform-log (get_op none) s s' a err h = cc
  perform-log (get_op (some o)) s s' a err h = kept (LogsTo s) h (settle-log _ _ _ _ _ _)
  perform-log (count_op opts) s s' a err h = kept (LogsTo s) h (settle-log _ _ _ _ _ _)
  perform-log (exists_op opts) s s' a err h =
      kept (LogsTo s) h (exists_counted-LogsTo s _ (settle-log _ _ _ _ _ _))
  perform-log (list_op opts) s s' a err h =
      kept (LogsTo s) h (find_counted-LogsTo s opts _ (settle-log _ _ _ _ _ _))
