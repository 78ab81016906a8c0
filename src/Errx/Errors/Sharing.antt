-- ===== src/Errx/Errors/Sharing.antt =====
-- errx/errx.go, WithDetails, WithMetadata and WithMessage: which of them change an error that
-- others hold.
use linhub.Base.{
  All, All-get, All-set, Option, Text, [], arith, get_elem?, get_elem?-append, get_elem?-concat,
  get_elem?-set_ne, get_elem?-set_self, length, lt-length_of_get, none, refl, set, some, sym, ℕ,
  ◌++◌, ◌<◌, ◌∷◌, ◌≡◌, ◌≢◌,
}
use linhub.Errx.Codes.{get_error_level}
use linhub.Errx.Errors.{BizError, Heap, initial_heap, with_details, with_message, write_at}

-- WithDetails on a valid pointer returns that same pointer; every holder of it then reads the new
-- details with all else as before, and every other error is unchanged.
with_details_shared :
    (h : Heap) (p : ℕ) (details : Text) (e : BizError) (r : ℕ)
    → get_elem? h p ≡ some e
    → r ≢ p
    → (h' : Heap) × (with_details h p details ≡ some (p, h'))
      × (get_elem? h' p ≡ some (record e { details = details }))
      × (get_elem? h' r ≡ get_elem? h r)
unfolding with_details
with_details_shared h p details e r found apart = (
  set h p (record e { details = details }),
  rw found,
  get_elem?-set_self h p _ (lt-length_of_get h p found),
  get_elem?-set_ne h p r _ (λ q. apart (sym q)),
)

-- WithMessage on a valid pointer returns a new pointer to a copy with the new message; every error
-- that was there, the receiver included, is unchanged.
with_message_fresh :
    (h : Heap) (p : ℕ) (message : Text) (e : BizError) (r : ℕ)
    → get_elem? h p ≡ some e
    → r < length h
    → (h' : Heap) × (with_message h p message ≡ some (length h, h'))
      × (get_elem? h' (length h) ≡ some (record e { message = message }))
      × (get_elem? h' r ≡ get_elem? h r)
unfolding with_message
with_message_fresh h p message e r found old = (
  h ++ record e { message = message } ∷ [],
  rw found,
  get_elem?-concat h _,
  get_elem?-append h _ r old,
)

-- The level of an error is the one of its code.
abbrev pub IsLevelled : BizError → Type 0
IsLevelled e = e.level ≡ get_error_level e.code

write_at-IsLevelled :
    (h : Heap) (p q : ℕ) (f : BizError → BizError) (o : Option BizError) (h' : Heap)
    → ((e : BizError) → IsLevelled e → IsLevelled (f e))
    → All IsLevelled h
    → get_elem? h p ≡ o
    → write_at h p f o ≡ some (q, h')
    → All IsLevelled h'
write_at-IsLevelled h p q f none h' keep levels found done = cc
write_at-IsLevelled h p q f (some e) h' keep levels found done =
    let same : set h p (f e) ≡ h' = ground arith in
    rw (← same) (All-set IsLevelled h p (f e) levels (keep e (All-get IsLevelled h p levels found)))

-- In the heap of the program every error has the level of its code, from the predefined errors on.
initial_heap-IsLevelled : All IsLevelled initial_heap
unfolding initial_heap
initial_heap-IsLevelled = (
  refl,
  (
    refl,
    (
      refl,
      (refl, (refl, (refl, (refl, (refl, (refl, (refl, (refl, (refl, (refl, (refl, tt))))))))))),
    ),
  ),
)

-- WithDetails keeps the level of every error that of its code.
with_details-IsLevelled :
    (h : Heap) (p q : ℕ) (details : Text) (h' : Heap)
    → All IsLevelled h
    → with_details h p details ≡ some (q, h')
    → All IsLevelled h'
unfolding with_details
with_details-IsLevelled h p q details h' levels =
    write_at-IsLevelled h p q _ (get_elem? h p) h' (λ e k. k) levels refl
