-- ===== src/Middleware/Capture/Bodies.antt =====
-- middleware/gin/observability.go, Observability: the body of a request after it has been logged.
use linhub.Base.{
  Bool-cases, Text, [], ap, arith, codes, drop, inl, inr, length, ltb, none, refl, some, suc, take,
  take-append-drop, true, zero, ℕ, ◌++◌, ◌+◌, ◌<◌, ◌∙◌, ◌∷◌, ◌≡◌, ◌≤◌, ◌⊎◌,
}
use linhub.Middleware.Capture.{
  Stream, after_read, capture_request_body, logged_body, max_captured_body_bytes, multi_reader,
  read_all_limited,
}
use linhub.Middleware.Capture.Writes.{take_all}

take_shorter : (n : ℕ) (a : Text) → take n (take (suc n) a) ≡ take n a
take_shorter zero a = refl
take_shorter (suc n) [] = refl
take_shorter (suc n) (c ∷ a) = ap (λ r. c ∷ r) (take_shorter n a)

length-take_of_lt : (n : ℕ) (a : Text) → n < length a → length (take (suc n) a) ≡ suc n
length-take_of_lt n [] h = absurd (omega arith)
length-take_of_lt zero (c ∷ a) h = omega arith
length-take_of_lt (suc n) (c ∷ a) h = omega (arith, length-take_of_lt n a (omega arith))

logged_body-take : (a : Text) → logged_body (take (max_captured_body_bytes + 1) a) ≡ logged_body a
unfolding logged_body
logged_body-take a = elim (Bool-cases (ltb max_captured_body_bytes (length a))) [
  | inl e ↦
      let long = length-take_of_lt max_captured_body_bytes a (ground arith) in
      let again : ltb max_captured_body_bytes (length (take (max_captured_body_bytes + 1) a))
          ≡ true =
        ground arith in
      rw (e, again) (ap (λ r. r ++ codes "...[truncated]") (take_shorter max_captured_body_bytes a))
  | inr e ↦ rw (take_all (max_captured_body_bytes + 1) a (ground arith)) refl
]

drop_all : (n : ℕ) (a : Text) → length a < n → drop n a ≡ []
drop_all zero a h = absurd (omega arith)
drop_all (suc n) [] h = refl
drop_all (suc n) (c ∷ a) h = drop_all n a (omega arith)

abbrev limit : ℕ
limit = max_captured_body_bytes + 1

-- What `after_read` makes of a read with any limit.
module _ (n : ℕ) (s : Stream) where
  read_ok :
      (s.failure ≡ none) ⊎ (n ≤ length s.rest)
      → read_all_limited n s ≡ (take n s.rest, none, record s { rest = drop n s.rest })
  unfolding read_all_limited
  read_ok ok = elim (Bool-cases (ltb (length s.rest) n)) [
    | inl e ↦ elim ok [ inl good ↦ rw (e, good) refl | inr long ↦ absurd (ground arith) ]
    | inr e ↦ rw e refl
  ]

  after_read_ok :
      (s.failure ≡ none) ⊎ (n ≤ length s.rest)
      → after_read (read_all_limited n s) ≡ (logged_body (take n s.rest), s)
  unfolding after_read multi_reader
  after_read_ok ok =
      rw (read_ok ok)
        (ap (λ r. (logged_body (take n s.rest), record s { rest = r })) (take-append-drop n s.rest))

  after_read_fails :
      (e : ℕ)
      → s.failure ≡ some e
      → length s.rest < n
      → after_read (read_all_limited n s) ≡ ([], record { rest = []; failure = some e })
  unfolding after_read read_all_limited
  after_read_fails e fails short =
      let e1 : ltb (length s.rest) n ≡ true = ground arith in
      rw (e1, fails, drop_all n s.rest short) refl

-- The handler is given the body as it was, its bytes and the error after them, unless the body fails
-- within its first 65,537 bytes: then the bytes before the failure are lost. The text that is logged
-- is the whole body, or its first 65,536 bytes with a mark when it is longer.
pub capture_request_body-Kept :
    (s : Stream)
    → ((s.failure ≡ none) ⊎ (max_captured_body_bytes < length s.rest)
        → capture_request_body (some s) ≡ (logged_body s.rest, some s))
      × ((e : ℕ)
          → s.failure ≡ some e
          → length s.rest ≤ max_captured_body_bytes
          → capture_request_body (some s) ≡ ([], some (record { rest = []; failure = some e })))
unfolding capture_request_body
capture_request_body-Kept s = (
  λ ok.
      ap (λ r. (r.0, some r.1)) (after_read_ok limit s (long_enough ok))
      ∙ ap (λ r. (r, some s)) (logged_body-take s.rest),
  λ e fails short. ap (λ r. (r.0, some r.1)) (after_read_fails limit s e fails (omega arith)),
)
  where
    long_enough :
        (s.failure ≡ none) ⊎ (max_captured_body_bytes < length s.rest)
        → (s.failure ≡ none) ⊎ (limit ≤ length s.rest)
    long_enough (inl good) = inl good
    long_enough (inr long) = inr (omega arith)
