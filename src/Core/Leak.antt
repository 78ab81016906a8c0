-- ===== src/Core/Leak.antt =====
-- core/core.go, ReadRequest: ErrBind is one value that all requests share.
use linhub.Base.{
  List, Option, Text, get_elem?, get_elem?-set_self, lt-length_of_get, refl, set, some, ◌≡◌,
}
use linhub.Errx.Codes.{get_http_code}
use linhub.Errx.Errors.{BizError, GoError, Heap, biz, err_bind, from_biz_error, with_details}
use linhub.Core.{Reply, Step, failed, read_request, write_biz_error}

-- When ErrBind is there and the binders leave the heap alone, two requests whose binders fail one
-- after the other, before either reply is written, get the same error value: the reply to the
-- first one then carries the details of the second one's error.
pub read_request_leak :
    {F T : Type 0} (error_text : Heap → GoError F → Text) (first second : Step F T)
    (default' : Option (T → T)) (validators : List (Option (Step F T))) (h : Heap) (rq₁ rq₂ : T)
    (e₁ e₂ : GoError F) (b : BizError)
    → first h rq₁ ≡ (some e₁, h, rq₁)
    → get_elem? h err_bind ≡ some b
    → ((h' : Heap) → second h' rq₂ ≡ (some e₂, h', rq₂))
    → (h₁ h₂ : Heap) × (r : Reply T) × (read_request error_text first default' validators h rq₁
        ≡ failed (biz err_bind) h₁ rq₁)
      × (read_request error_text second default' validators h₁ rq₂ ≡ failed (biz err_bind) h₂ rq₂)
      × (write_biz_error h₂ (some err_bind) ≡ some r)
      × (r.body.details ≡ error_text h₁ e₂)
unfolding read_request with_details write_biz_error from_biz_error
read_request_leak error_text first second default' validators h rq₁ rq₂ e₁ e₂ b run here fails =
    let b₁ : BizError = record b { details = error_text h e₁ } in
    let h₁ : Heap = set h err_bind b₁ in
    let found = get_elem?-set_self h err_bind b₁ (lt-length_of_get h err_bind here) in
    let b₂ : BizError = record b₁ { details = error_text h₁ e₂ } in
    let h₂ : Heap = set h₁ err_bind b₂ in
    let found₂ = get_elem?-set_self h₁ err_bind b₂ (lt-length_of_get h₁ err_bind found) in
    (
      h₁,
      h₂,
      record { http = get_http_code b.code; body = from_biz_error b₂ },
      rw (run, here),
      rw (fails h₁, found),
      rw found₂,
      refl,
    )
