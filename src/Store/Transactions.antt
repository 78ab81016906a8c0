-- ===== src/Store/Transactions.antt =====
-- store/store.go: TxRunner, and stores that take part in the transaction of their context.
use linhub.Store.Listing.{list-count}
use linhub.Base.{List, Option, [], ap, fun_ext, none, refl, some, sym, ℤ, ◌>>=◌, ◌∙◌, ◌∷◌, ◌≡◌}
use linhub.Store.{
  Answer, Ctx, Gorm, Operation, State, count, count_op, create, create_op, db, delete, delete_op,
  exists, exists_counted, exists_op, find_counted, get_one, get_op, list, list_op, perform, raw,
  tx_from_context, update, update_columns, update_columns_op, update_op, update_partial,
  update_partial_op, with_tx,
}
use linhub.Where.{Options}

-- A function that runs under a context; its result is its error.
abbrev pub Body : Type 0 → Type 0 → Type 0 → Type 0 → Type 0
Body K Db W E = Ctx K Db → State W E → Option (Option E × State W E)

module _ {Db W E K : Type 0} (with_context : Ctx K Db → Db → Db)
    (transaction : Db
      → (Db → State W E → Option (Option E × State W E))
      → State W E
      → Option (Option E × State W E))
    (not_configured : E) where
  -- (*TxRunner).Run: the receiver is nil or its root, which is nil or a handle.
  unfoldable pub run :
      Option (Option Db) → Ctx K Db → Body K Db W E → State W E → Option (Option E × State W E)
  unfolding with_tx
  run none ctx body s = some (some not_configured, s)
  run (some none) ctx body s = some (some not_configured, s)
  run (some (some root)) ctx body s =
      transaction (with_context ctx root) (λ h. body (with_tx ctx (some h))) s

continue_with :
    {W T E : Type 0}
    → (State W E → Option (Option E × State W E))
    → Answer T × Option E × State W E
    → Option (Option E × State W E)
continue_with rest (a, none, s) = rest s
continue_with rest (a, some e, s) = some (some e, s)

module _ {Db W T E K : Type 0} (g : Gorm Db W T E) where
  -- A body that makes store calls one after the other, and returns the first error.
  unfoldable pub perform_all : (Ctx K Db → Db) → List (Operation T) → Body K Db W E
  unfolding continue_with
  perform_all storage [] ctx s = some (none, s)
  perform_all storage (op ∷ ops) ctx s =
      perform g storage ctx op s >>= continue_with (perform_all storage ops ctx)

  find_counted_tx :
      (storage₁ storage₂ : Ctx K Db → Db) (ctx : Ctx K Db) (h : Db) (opts : Option Options)
      (r : ℤ × Option E × State W E)
      → find_counted g storage₁ (with_tx ctx (some h)) opts r
        ≡ find_counted g storage₂ (with_tx ctx (some h)) opts r
  unfolding find_counted raw tx_from_context with_tx
  find_counted_tx storage₁ storage₂ ctx h opts (n, none, s) = refl
  find_counted_tx storage₁ storage₂ ctx h opts (n, some e, s) = refl

  list_tx :
      (storage₁ storage₂ : Ctx K Db → Db) (ctx : Ctx K Db) (h : Db) (opts : Option Options)
      (s : State W E)
      → list g storage₁ (with_tx ctx (some h)) opts s
        ≡ list g storage₂ (with_tx ctx (some h)) opts s
  unfolding count raw tx_from_context with_tx
  list_tx storage₁ storage₂ ctx h opts s =
      list-count g storage₁ (with_tx ctx (some h)) opts s
      ∙ find_counted_tx storage₁ storage₂ ctx h opts
          (count g storage₁ (with_tx ctx (some h)) opts s)
      ∙ sym (list-count g storage₂ (with_tx ctx (some h)) opts s)

  apply_tx :
      (storage₁ storage₂ : Ctx K Db → Db) (ctx : Ctx K Db) (h : Db)
      → (op : Operation T) (s : State W E)
      → perform g storage₁ (with_tx ctx (some h)) op s
        ≡ perform g storage₂ (with_tx ctx (some h)) op s
  unfolding perform create update update_partial update_columns delete get_one count exists db raw
      tx_from_context with_tx exists_counted
  apply_tx storage₁ storage₂ ctx h (create_op obj) s = refl
  apply_tx storage₁ storage₂ ctx h (update_op obj) s = refl
  apply_tx storage₁ storage₂ ctx h (update_partial_op opts attrs) s = refl
  apply_tx storage₁ storage₂ ctx h (update_columns_op opts obj columns) s = refl
  apply_tx storage₁ storage₂ ctx h (delete_op opts) s = refl
  apply_tx storage₁ storage₂ ctx h (get_op opts) s = refl
  apply_tx storage₁ storage₂ ctx h (count_op opts) s = refl
  apply_tx storage₁ storage₂ ctx h (exists_op opts) s = refl
  apply_tx storage₁ storage₂ ctx h (list_op opts) s =
      rw (list_tx storage₁ storage₂ ctx h opts s) refl

  perform_all_tx :
      (storage₁ storage₂ : Ctx K Db → Db) (ctx : Ctx K Db) (h : Db) (ops : List (Operation T))
      (s : State W E)
      → perform_all storage₁ ops (with_tx ctx (some h)) s
        ≡ perform_all storage₂ ops (with_tx ctx (some h)) s
  unfolding perform_all
  perform_all_tx storage₁ storage₂ ctx h [] s = refl
  perform_all_tx storage₁ storage₂ ctx h (op ∷ ops) s =
      rw
        (
          apply_tx storage₁ storage₂ ctx h op s,
          fun_ext (perform_all_tx storage₁ storage₂ ctx h ops),
        )
        refl

  -- A sequence of store calls that a transaction runner runs acts on the transaction alone: the
  -- outcome is the same whatever handle the provider of the stores would have given.
  pub run_in_transaction :
      (with_context : Ctx K Db → Db → Db)
      (transaction : Db
        → (Db → State W E → Option (Option E × State W E))
        → State W E
        → Option (Option E × State W E))
      (not_configured : E) (runner : Option (Option Db)) (storage₁ storage₂ : Ctx K Db → Db)
      (ctx : Ctx K Db) (ops : List (Operation T)) (s : State W E)
      → run with_context transaction not_configured runner ctx (perform_all storage₁ ops) s
        ≡ run with_context transaction not_configured runner ctx (perform_all storage₂ ops) s
  unfolding run
  run_in_transaction wc transaction e none storage₁ storage₂ ctx ops s = refl
  run_in_transaction wc transaction e (some none) storage₁ storage₂ ctx ops s = refl
  run_in_transaction wc transaction e (some (some root)) storage₁ storage₂ ctx ops s =
      ap (λ body. transaction (wc ctx root) body s)
        (fun_ext λ h. fun_ext λ s'. perform_all_tx storage₁ storage₂ ctx h ops s')
