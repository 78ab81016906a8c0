-- ===== src/Log/Fanout.antt =====
-- log/fanout.go: the handler that gives a record to several handlers. A slog handler is a parameter,
-- whose calls may change a world.
use linhub.Base.{
  Bool, Bool-cases, List, Option, Text, [], ap, false, if◌then◌else◌, inl, inr, map, none, refl,
  some, true, ℕ, ℤ, ◌∙◌, ◌∷◌, ◌≡◌,
}

-- The interface slog.Handler, for the level of a record.
pub record SlogHandler (H R A W : Type 0) : Type 0 where
  pub enabled : H → ℤ → Bool
  pub handle : H → R → W → Option ℕ × W
  pub with_attrs : A → H → H
  pub with_group : Text → H → H
  pub level : R → ℤ

module _ {H R A W : Type 0} (i : SlogHandler H R A W) where
  -- Enabled.
  unfoldable pub enabled : List H → ℤ → Bool
  enabled [] l = false
  enabled (h ∷ hs) l = if i.enabled h l then true else enabled hs l

  first_error : Option ℕ → Option ℕ → Option ℕ
  first_error none e = e
  first_error (some e) e' = some e

  -- The loop of Handle, for the first error so far.
  handle_from : Option ℕ → List H → R → W → Option ℕ × W
  unfolding first_error
  handle_from e [] r w = (e, w)
  handle_from e (h ∷ hs) r w =
      let done = i.handle h r w in
      let on = i.enabled h (i.level r) in
      handle_from (if on then first_error e done.0 else e) hs r (if on then done.1 else w)

  -- Handle.
  unfoldable pub handle : List H → R → W → Option ℕ × W
  unfolding handle_from
  handle hs r w = handle_from none hs r w

  -- WithAttrs and WithGroup.
  unfoldable pub with_attrs : A → List H → List H
  with_attrs as' hs = map (i.with_attrs as') hs

  unfoldable pub with_group : Text → List H → List H
  with_group name hs = map (i.with_group name) hs

  unfoldable pub enabled_ones : ℤ → List H → List H
  enabled_ones l [] = []
  enabled_ones l (h ∷ hs) = let rest = enabled_ones l hs in if i.enabled h l then h ∷ rest else rest

  -- The record to each handler in turn: what each answers, and the world afterwards.
  unfoldable pub each : List H → R → W → List (Option ℕ) × W
  each [] r w = ([], w)
  each (h ∷ hs) r w =
      let done = i.handle h r w in let rest = each hs r done.1 in (done.0 ∷ rest.0, rest.1)

  unfoldable pub first_of : List (Option ℕ) → Option ℕ
  unfolding first_error
  first_of [] = none
  first_of (e ∷ es) = first_error e (first_of es)

  first_error_assoc :
      (a b d : Option ℕ) → first_error (first_error a b) d ≡ first_error a (first_error b d)
  unfolding first_error
  first_error_assoc none b d = refl
  first_error_assoc (some e) b d = refl

  handle_from-each :
      (e : Option ℕ) (hs : List H) (r : R) (w : W)
      → handle_from e hs r w ≡ (
        first_error e (first_of (each (enabled_ones (i.level r) hs) r w).0),
        (each (enabled_ones (i.level r) hs) r w).1,
      )
  unfolding handle_from enabled_ones each first_of first_error
  handle_from-each none [] r w = refl
  handle_from-each (some e) [] r w = refl
  handle_from-each e (h ∷ hs) r w =
      let done = i.handle h r w in
      let rest = each (enabled_ones (i.level r) hs) r done.1 in
      elim (Bool-cases (i.enabled h (i.level r))) [
        | inl z ↦ rw z (
            handle_from-each (first_error e done.0) hs r done.1
            ∙ ap (λ x. (x, rest.1)) (first_error_assoc e done.0 (first_of rest.0)))
        | inr z ↦ rw z (handle_from-each e hs r w)
      ]

  -- Handle gives the record to each enabled handler once, in order, also after one has failed, and
  -- returns the first error that one of them returns.
  pub handle-each :
      (hs : List H) (r : R) (w : W)
      → handle hs r w ≡ (
        first_of (each (enabled_ones (i.level r) hs) r w).0,
        (each (enabled_ones (i.level r) hs) r w).1,
      )
  unfolding handle first_error
  handle-each hs r w = handle_from-each none hs r w
