-- ===== src/Otelslog/Groups.antt =====
-- otelslog/handler.go: the attributes of a record under any calls of WithAttrs and WithGroup.
pub mod Nesting
use linhub.Otelslog.{Otel}
use linhub.Otelslog.Handler.{
  Attrs, Group, Handler, add_to_group, attr, flat, is_nonempty, key_value, next_group,
  next_non_empty, no_attrs, outer, record_attributes, with_attrs, with_group,
}
use linhub.Base.{
  All, Bool-cases, List, Text, [], ap, append_assoc, false, if◌then◌else◌, inl, inr, refl, sym,
  true, ◌++◌, ◌∙◌, ◌∷◌, ◌≡◌,
}

-- The calls that derive a handler.
pub data Op : Type 0 where
  attrs_op : Attrs → Op
  group_op : Text → Op

module _ {L : Type 0} (otel : Otel L) where
  unfoldable pub derive : List Op → Handler L → Handler L
  derive [] h = h
  derive (attrs_op as' ∷ ops) h = derive ops (with_attrs otel as' h)
  derive (group_op name ∷ ops) h = derive ops (with_group otel name h)

  -- A group with what stands in it, which is left out if that is nothing.
  abbrev pub grouped : Text → List (Text × L) → List (Text × L)
  grouped name [] = []
  grouped name (a ∷ as') = (name, otel.map_value (a ∷ as')) ∷ []

  -- What slog asks of a handler: the attributes and groups nest in the order of the calls.
  unfoldable pub nested : List Op → List (Text × L) → List (Text × L)
  nested [] inner = inner
  nested (attrs_op as' ∷ ops) inner = flat otel as' ++ nested ops inner
  nested (group_op name ∷ ops) inner = grouped name (nested ops inner)

  wrap : Group L → List (Text × L) → List (Text × L)
  wrap g inner = grouped g.name (g.attrs ++ inner)

  around : List (Group L) → List (Text × L) → List (Text × L)
  unfolding wrap
  around [] inner = inner
  around (g ∷ gs) inner = around gs (wrap g inner)

  -- What a handler makes of what stands innermost, by the specification.
  context : Handler L → List (Text × L) → List (Text × L)
  unfolding around
  context h inner = h.attrs ++ around h.group inner

  context-with_attrs :
      (h : Handler L) (as' : Attrs) (inner : List (Text × L))
      → context (with_attrs otel as' h) inner ≡ context h (flat otel as' ++ inner)
  unfolding context around wrap with_attrs add_to_group
  context-with_attrs h as' inner = go h.group
    where
      go :
          (gs : List (Group L))
          → context (add_to_group otel gs as' (record h { group = gs })) inner
            ≡ context (record h { group = gs }) (flat otel as' ++ inner)
      go [] = append_assoc h.attrs (flat otel as') inner
      go (g ∷ gs) = rw (append_assoc g.attrs (flat otel as') inner) refl

  context-derive :
      (ops : List Op) (h : Handler L) (inner : List (Text × L))
      → context (derive ops h) inner ≡ context h (nested ops inner)
  unfolding derive nested context around wrap with_group
  context-derive [] h inner = refl
  context-derive (attrs_op as' ∷ ops) h inner =
      context-derive ops (with_attrs otel as' h) inner ∙ context-with_attrs h as' (nested ops inner)
  context-derive (group_op name ∷ ops) h inner = context-derive ops (with_group otel name h) inner

  -- Every group has attributes of its own.
  abbrev pub Filled : List (Group L) → Type 0
  Filled gs = All (λ g. is_nonempty g.attrs ≡ true) gs

  filled_wrap :
      (name : Text) (as' : List (Text × L)) (out : Text × L)
      → is_nonempty as' ≡ true
      → (if is_nonempty as' then (name, otel.map_value (as' ++ out ∷ [])) else out) ∷ []
        ≡ grouped name (as' ++ out ∷ [])
  filled_wrap name [] out h = cc
  filled_wrap name (a ∷ as') out h = refl

  outer-around :
      (gs : List (Group L)) (out : Text × L)
      → Filled gs
      → outer otel gs out ∷ [] ≡ around gs (out ∷ [])
  unfolding outer around wrap
  outer-around [] out h = refl
  outer-around (g ∷ gs) out (h, hs) =
      let next =
        if is_nonempty g.attrs then (g.name, otel.map_value (g.attrs ++ out ∷ [])) else out in
      outer-around gs next hs ∙ ap (around gs) (filled_wrap g.name g.attrs out h)

  key_value-around :
      (g : Group L) (gs : List (Group L)) (kvs : List (Text × L))
      → Filled gs
      → is_nonempty (g.attrs ++ kvs) ≡ true
      → key_value otel g gs kvs ∷ [] ≡ around gs (wrap g kvs)
  unfolding key_value wrap
  key_value-around g gs kvs h k =
      outer-around gs (g.name, otel.map_value (g.attrs ++ kvs)) h
      ∙ ap (around gs) (go (g.attrs ++ kvs) k)
    where
      go :
          (as' : List (Text × L))
          → is_nonempty as' ≡ true
          → (g.name, otel.map_value as') ∷ [] ≡ grouped g.name as'
      go [] h = cc
      go (a ∷ as') h = refl

  append_nonempty :
      (as' bs : List (Text × L)) → is_nonempty as' ≡ true → is_nonempty (as' ++ bs) ≡ true
  append_nonempty [] bs h = cc
  append_nonempty (a ∷ as') bs h = refl

  nonempty_append :
      (as' bs : List (Text × L)) → is_nonempty bs ≡ true → is_nonempty (as' ++ bs) ≡ true
  nonempty_append [] bs h = h
  nonempty_append (a ∷ as') bs h = refl

  next_non_empty-around :
      (gs : List (Group L)) → Filled gs → next_group otel (next_non_empty otel gs) ≡ around gs []
  unfolding around next_non_empty next_group
  next_non_empty-around [] h = refl
  next_non_empty-around (g ∷ gs) (h, hs) =
      rw h (key_value-around g gs [] hs (append_nonempty g.attrs [] h))

  -- The attributes of the record are not all ignored, if it has some.
  abbrev pub IsShown : Attrs → Type 0
  IsShown no_attrs = Unit
  IsShown (attr k v rec) = is_nonempty (flat otel (attr k v rec)) ≡ true

  -- Every group but the innermost has attributes of its own.
  OuterFilled : List (Group L) → Type 0
  OuterFilled [] = Unit
  OuterFilled (g ∷ gs) = Filled gs

  wrap_empty :
      (name : Text) (as' : List (Text × L))
      → is_nonempty as' ≡ false
      → wrap (record { name = name; attrs = as' }) [] ≡ []
  unfolding wrap
  wrap_empty name [] h = refl
  wrap_empty name (a ∷ as') h = cc

  record_attributes-around :
      (gs : List (Group L)) (rec : Attrs)
      → OuterFilled gs
      → IsShown rec
      → record_attributes otel gs rec ≡ around gs (flat otel rec)
  unfolding record_attributes around OuterFilled next_group flat
  record_attributes-around [] rec h k = refl
  record_attributes-around (g ∷ gs) (attr key v rec) h k =
      key_value-around g gs (flat otel (attr key v rec)) h
        (nonempty_append g.attrs (flat otel (attr key v rec)) k)
  record_attributes-around (g ∷ gs) no_attrs h k = elim (Bool-cases (is_nonempty g.attrs)) [
    | inl e ↦ rw e (key_value-around g gs [] h (append_nonempty g.attrs [] e))
    | inr e ↦ rw e (next_non_empty-around gs h ∙ ap (around gs) (sym (wrap_empty g.name g.attrs e)))
  ]
