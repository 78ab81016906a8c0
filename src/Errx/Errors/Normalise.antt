-- ===== src/Errx/Errors/Normalise.antt =====
-- errx/errx.go, FromError, Code and FromBizError.
use linhub.Base.{
  List, Option, Text, [], ap, arith, length, none, refl, some, sym, ℕ, ◌++◌, ◌∙◌, ◌∷◌, ◌≡◌, ◌≢◌,
}
use linhub.Errx.Codes.{code_ok, get_error_level}
use linhub.Errx.Errors.{
  BizError, Detail, GoError, Heap, Status, apply_details, as_biz, biz, biz_code_of_status,
  biz_of_status, error_info, foreign, from_error, new_biz_error, other_detail, wrapped,
}
use linhub.Errx.Errors.Sharing.{IsLevelled}

biz_code_of_status-ne-ok : (status : ℕ) → biz_code_of_status status ≢ code_ok
unfolding biz_code_of_status
biz_code_of_status-ne-ok status = ground arith

apply_details-code :
    (e : BizError) (ds : List Detail)
    → ((apply_details e ds).code ≡ e.code)
      × ((apply_details e ds).level ≡ e.level)
      × ((apply_details e ds).message ≡ e.message)
unfolding apply_details
apply_details-code e [] = (refl, refl, refl)
apply_details-code e (error_info r m ∷ ds) = (refl, refl, refl)
apply_details-code e (other_detail ∷ ds) = apply_details-code e ds

module _ {F : Type 0} (text : F → Text) (status_of : GoError F → Option Status) where
  -- What an error that holds no business error is turned into.
  abbrev pub IsFailure : BizError → Type 0
  IsFailure b = (b.code ≢ code_ok) × IsLevelled b

  biz_of_status-IsFailure :
      (e : GoError F) (o : Option Status) → IsFailure (biz_of_status text status_of e o)
  unfolding biz_of_status new_biz_error
  biz_of_status-IsFailure (biz p) none = ground arith
  biz_of_status-IsFailure (wrapped t e) none = ground arith
  biz_of_status-IsFailure (foreign f) none = ground arith
  biz_of_status-IsFailure e (some s) =
      let (c, l, _) = apply_details-code _ s.details in
      (λ q. biz_code_of_status-ne-ok _ (sym c ∙ q), l ∙ ap get_error_level (sym c))

  -- An error with no business error in its chain is turned into a new one, at the end of the heap
  -- and with the rest of it unchanged; its code is not the one of success and its level is that of
  -- its code.
  pub from_error_foreign :
      (h : Heap) (e : GoError F)
      → as_biz e ≡ none
      → (b : BizError) × (from_error text status_of h (some e) ≡ (some (length h), h ++ b ∷ []))
        × IsFailure b
  unfolding from_error
  from_error_foreign h e none_found = (
    biz_of_status text status_of e (status_of e),
    rw none_found,
    biz_of_status-IsFailure e (status_of e),
  )

  -- An error with a business error in its chain is turned into that very pointer, and the heap is
  -- unchanged; turning the result again gives the same.
  from_error_biz :
      (h : Heap) (e : GoError F) (p : ℕ)
      → as_biz e ≡ some p
      → (from_error text status_of h (some e) ≡ (some p, h))
        × (from_error text status_of h (some (biz p)) ≡ (some p, h))
  unfolding from_error
  from_error_biz h e p found = (rw found, refl)
