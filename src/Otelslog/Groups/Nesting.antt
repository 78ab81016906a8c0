-- ===== src/Otelslog/Groups/Nesting.antt =====
-- otelslog/handler.go: the handler's records nest their attributes as slog asks.
use linhub.Otelslog.{Otel}
use linhub.Otelslog.Handler.{
  Attrs, Group, Handler, Record, add_to_group, attr, convert_record, flat, is_nonempty, key_value,
  level_text, next_non_empty, no_attrs, outer, record_attributes, severity_of, source_attributes,
  with_attrs, with_group,
}
use linhub.Otelslog.Config.{Config, new_config, new_handler}
use linhub.Otelslog.Groups.{
  IsShown, Op, OuterFilled, append_nonempty, attrs_op, context, context-derive, derive, group_op,
  nested, nonempty_append, record_attributes-around,
}
use linhub.Base.{
  Bool, Bool-cases, List, Text, [], ap, arith, false, inl, inr, not, refl, true, ℕ, ◌&&◌, ◌++◌, ◌∙◌,
  ◌∷◌, ◌≡◌,
}

module _ {L : Type 0} (otel : Otel L) where
  HeadFilled : List (Group L) → Type 0
  HeadFilled [] = Unit
  HeadFilled (g ∷ gs) = is_nonempty g.attrs ≡ true

  -- Between two groups that the calls open there are attributes; `b` tells whether the innermost
  -- group has none yet.
  abbrev pub Separate : Bool → List Op → Type 0
  Separate b [] = Unit
  Separate b (attrs_op as' ∷ ops) = Separate (b && not (is_nonempty (flat otel as'))) ops
  Separate b (group_op name ∷ ops) = (b ≡ false) × Separate true ops

  with_attrs-filled :
      (as' : Attrs) (h : Handler L)
      → OuterFilled otel h.group
      → OuterFilled otel (with_attrs otel as' h).group
  unfolding OuterFilled with_attrs add_to_group
  with_attrs-filled as' h f = go h.group f
    where
      go :
          (gs : List (Group L))
          → OuterFilled otel gs
          → OuterFilled otel (add_to_group otel gs as' (record h { group = gs })).group
      go [] f = tt
      go (g ∷ gs) f = f

  with_attrs-head :
      (b : Bool) (as' : Attrs) (h : Handler L)
      → (b ≡ false → HeadFilled h.group)
      → b && not (is_nonempty (flat otel as')) ≡ false
      → HeadFilled (with_attrs otel as' h).group
  unfolding HeadFilled with_attrs add_to_group
  with_attrs-head b as' h f e = go h.group f
    where
      go :
          (gs : List (Group L))
          → (b ≡ false → HeadFilled gs)
          → HeadFilled (add_to_group otel gs as' (record h { group = gs })).group
      go [] f = tt
      go (g ∷ gs) f = elim (Bool-cases b) [
        | inr no_b ↦ append_nonempty otel g.attrs (flat otel as') (f no_b)
        | inl yes_b ↦ nonempty_append otel g.attrs (flat otel as') (ground arith)
      ]

  derive-OuterFilled :
      (ops : List Op) (b : Bool) (h : Handler L)
      → Separate b ops
      → OuterFilled otel h.group
      → (b ≡ false → HeadFilled h.group)
      → OuterFilled otel (derive otel ops h).group
  unfolding derive OuterFilled HeadFilled with_group
  derive-OuterFilled [] b h s f k = f
  derive-OuterFilled (attrs_op as' ∷ ops) b h s f k =
      derive-OuterFilled ops (b && not (is_nonempty (flat otel as'))) (with_attrs otel as' h) s
        (with_attrs-filled as' h f) (with_attrs-head b as' h k)
  derive-OuterFilled (group_op name ∷ ops) b h (e, s) f k =
      derive-OuterFilled ops true (with_group otel name h) s (filled_by h.group f (k e)) (λ no'. cc)
    where
      filled_by :
          (gs : List (Group L))
          → OuterFilled otel gs
          → HeadFilled gs
          → OuterFilled otel (with_group otel name (record h { group = gs })).group
      filled_by [] f k = tt
      filled_by (g ∷ gs) f k = (k, f)

  derive-source : (ops : List Op) (h : Handler L) → (derive otel ops h).source ≡ h.source
  unfolding derive with_attrs add_to_group with_group
  derive-source [] h = refl
  derive-source (attrs_op as' ∷ ops) h = derive-source ops (with_attrs otel as' h) ∙ go h.group
    where
      go :
          (gs : List (Group L))
          → (add_to_group otel gs as' (record h { group = gs })).source ≡ h.source
      go [] = refl
      go (g ∷ gs) = refl
  derive-source (group_op name ∷ ops) h = derive-source ops (with_group otel name h)

  -- A handler that NewHandler makes and WithAttrs and WithGroup then derive gives a record the
  -- attributes of its source and then those of the calls and of the record, nested in the order of
  -- the calls, without empty groups. The condition is that attributes which are not ignored stand
  -- between any two groups, and that the attributes of the record are not all ignored if it has some.
  pub convert_record-nested :
      (global : ℕ) (opts : List (Config → Config)) (ops : List Op) (r : Record)
      → Separate false ops
      → IsShown otel r.attrs
      → (convert_record otel (derive otel ops (new_handler global opts)) r).attributes
        ≡ source_attributes otel (new_config global opts).source r.frame
          ++ nested otel ops (flat otel r.attrs)
  unfolding convert_record new_handler OuterFilled HeadFilled derive context nested
  convert_record-nested global opts ops r s k =
      let h : Handler L = new_handler global opts in
      let filled = derive-OuterFilled ops false h s tt (λ e. tt) in
      let inner = record_attributes-around otel (derive otel ops h).group r.attrs filled k in
      let whole = context-derive otel ops h (flat otel r.attrs) in
      rw (derive-source ops h, inner)
        (ap (λ as'. source_attributes otel (new_config global opts).source r.frame ++ as') whole)

  -- A group opened directly in a group without attributes takes its place: the record of any message
  -- is as if the outer of the two had not been opened.
  pub with_group_vanishes :
      (outer_name name : Text) (h : Handler L) (r : Record)
      → convert_record otel (with_group otel name (with_group otel outer_name h)) r
        ≡ convert_record otel (with_group otel name h) r
  unfolding convert_record with_group record_attributes next_non_empty key_value outer
  with_group_vanishes outer_name name h r =
      ap
        (λ as'. record {
          timestamp = r.time;
          body = otel.string_value r.message;
          severity = severity_of r.level;
          severity_text = level_text r.level;
          attributes = source_attributes otel h.source r.frame ++ (h.attrs ++ as');
        })
        (go r.attrs)
    where
      inner_group : Text → Group L
      inner_group n = record { name = n; attrs = [] }

      go :
          (rec : Attrs)
          → record_attributes otel (inner_group name ∷ inner_group outer_name ∷ h.group) rec
            ≡ record_attributes otel (inner_group name ∷ h.group) rec
      go no_attrs = refl
      go (attr k v rec) = refl
