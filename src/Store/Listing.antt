-- ===== src/Store/Listing.antt =====
-- store/store.go: what List counts and finds.
use linhub.Base.{List, Option, Text, [], ap, none, pos, refl, some, ℤ, ◌∙◌, ◌≡◌}
use linhub.Where.{Options}
use linhub.Store.{
  Ctx, Gorm, State, count, count_query, counted, find_counted, list, list_query, raw, settle,
}

settle-ok :
    {W E R : Type 0} (message : Text) (failure value : R) (err : Option E) (w : W)
    (l : List (E × Text))
    → (settle message failure value err w l).1 ≡ none
    → (err ≡ none) × ((settle message failure value err w l).0 ≡ value)
unfolding settle
settle-ok message failure value none w l h = (refl, refl)
settle-ok message failure value (some e) w l h = cc

module _ {Db W T E K : Type 0} (g : Gorm Db W T E) (storage : Ctx K Db → Db) (ctx : Ctx K Db) where
  find_counted_ok :
      (opts : Option Options) (r : ℤ × Option E × State W E)
      → (find_counted g storage ctx opts r).1 ≡ none
      → (ret : List T) × (r.1 ≡ none)
        × ((find_counted g storage ctx opts r).0 ≡ (r.0, ret))
        × ((g.find_rows (list_query g opts (raw g storage ctx)) r.2.world).1 ≡ none)
        × (ret ≡ (g.find_rows (list_query g opts (raw g storage ctx)) r.2.world).0)
  unfolding find_counted
  find_counted_ok opts (n, some e, s) h = cc
  find_counted_ok opts (n, none, s) h =
      let (fine, value) = settle-ok _ _ _ _ _ _ h in (_, refl, value, fine, refl)

  -- The count of List is that of Count, with its error and its entry in the log.
  pub list-count :
      (opts : Option Options) (s : State W E)
      → list g storage ctx opts s ≡ find_counted g storage ctx opts (count g storage ctx opts s)
  unfolding list count counted count_query
  list-count none s = refl
  list-count (some o) s = refl

  find_counted_fails :
      (opts : Option Options) (r : ℤ × Option E × State W E) (e : E)
      → r.1 ≡ some e
      → find_counted g storage ctx opts r ≡ ((pos 0, []), some e, r.2)
  unfolding find_counted
  find_counted_fails opts (n, none, s) e h = cc
  find_counted_fails opts (n, some e', s) e h = ap (λ o. ((pos 0, []), o, s)) h

  -- List and Count run with the same context, options and state. When Count fails, List fails with
  -- its error, returns no rows and leaves the state that Count leaves, so that the rows are never
  -- asked for. When List succeeds, so does Count, and List returns Count's number, and the rows that
  -- the list query finds in the world that Count leaves.
  pub list_ok :
      (opts : Option Options) (s : State W E)
      → ((e : E)
          → (count g storage ctx opts s).1 ≡ some e
          → list g storage ctx opts s ≡ ((pos 0, []), some e, (count g storage ctx opts s).2))
        × ((list g storage ctx opts s).1 ≡ none
            → ((count g storage ctx opts s).1 ≡ none)
              × ((list g storage ctx opts s).0.0 ≡ (count g storage ctx opts s).0)
              × ((list g storage ctx opts s).0.1
                  ≡ (g.find_rows
                      (list_query g opts (raw g storage ctx))
                      (count g storage ctx opts s).2.world).0))
  list_ok opts s = rw (list-count opts s) (
    λ e h. find_counted_fails opts (count g storage ctx opts s) e h,
    λ h.
        let (ret, fine, value, _, found_all) =
          find_counted_ok opts (count g storage ctx opts s) h in
        (fine, ap (λ r. r.0) value, ap (λ r. r.1) value ∙ found_all),
  )
