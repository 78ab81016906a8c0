-- ===== src/Middleware/Capture/Writes.antt =====
-- middleware/gin/observability.go, (*bodyCaptureWriter).Write: the buffer after any writes.
use linhub.Base.{
  Bool-cases, List, Text, [], ap, append-nil, append_assoc, arith, inl, inr, leb, length,
  length-append, ltb, refl, suc, sym, take, zero, ℕ, ◌++◌, ◌-◌, ◌∙◌, ◌∷◌, ◌≡◌, ◌≤◌,
}
use linhub.Middleware.Capture.{
  BodyCaptureWriter, Call, Chain, calls, capture, done, next, perform_captured, promoted, write,
  write_captured, write_string, written,
}

pub take-take : (n : ℕ) (a b : Text) → take n (take n a ++ b) ≡ take n (a ++ b)
take-take zero a b = refl
take-take (suc n) [] b = refl
take-take (suc n) (c ∷ a) b = ap (λ r. c ∷ r) (take-take n a b)

pub take_all : (n : ℕ) (a : Text) → length a ≤ n → take n a ≡ a
take_all zero [] h = refl
take_all zero (c ∷ a) h = absurd (omega arith)
take_all (suc n) [] h = refl
take_all (suc n) (c ∷ a) h = ap (λ r. c ∷ r) (take_all n a (omega arith))

take_more : (n : ℕ) (a b : Text) → length a ≤ n → take n (a ++ b) ≡ a ++ take (n - length a) b
take_more n [] b h = let e : n - 0 ≡ n = omega arith in rw e refl
take_more zero (c ∷ a) b h = absurd (omega arith)
take_more (suc n) (c ∷ a) b h =
    let e : suc n - suc (length a) ≡ n - length a = omega arith in
    rw e (ap (λ r. c ∷ r) (take_more n a b (omega arith)))

pub length-take_le : (n : ℕ) (a : Text) → length (take n a) ≤ n
length-take_le zero a = omega arith
length-take_le (suc n) [] = omega arith
length-take_le (suc n) (c ∷ a) = omega (arith, length-take_le n a)

module _ {W : Type 0} {O R : Type 0} (perform : Call O → W → R × W) where
  capture-take :
      (w : BodyCaptureWriter perform) (b : Text)
      → length w.body ≤ w.limit
      → capture perform b w ≡ take w.limit (w.body ++ b)
  capture-take w b h = elim (Bool-cases (ltb 0 (w.limit - length w.body))) [
    | inl room ↦ elim (Bool-cases (leb (length b) (w.limit - length w.body))) [
      | inl all_fits ↦
          let within : length (w.body ++ b) ≤ w.limit = ground (arith, length-append w.body b) in
          rw (room, all_fits) (sym (take_all w.limit (w.body ++ b) within))
      | inr cut ↦ rw (room, cut) (sym (take_more w.limit w.body b h))
    ]
    | inr full ↦
        let none_left : w.limit - length w.body ≡ 0 = ground arith in
        rw full (
          sym (
            take_more w.limit w.body b h
            ∙ ap (λ n. w.body ++ take n b) none_left
            ∙ append-nil w.body))
  ]

  -- The buffer holds the start of `p`, up to the limit.
  abbrev Holds : Text → BodyCaptureWriter perform → Type 0
  Holds p w = w.body ≡ take w.limit p

  Holds-write_captured :
      (p b : Text) (w : BodyCaptureWriter perform)
      → Holds p w
      → Holds (p ++ b) (write_captured perform b w).1
  unfolding write_captured
  Holds-write_captured p b w h =
      let within : length w.body ≤ w.limit = rw h (length-take_le w.limit p) in
      capture-take w b within ∙ ap (λ r. take w.limit (r ++ b)) h ∙ take-take w.limit p b

  -- What there is to see of a run from outside, which is all of a run without the capture.
  abbrev pub seen : List (Call O) × BodyCaptureWriter perform → List (Call O) × W
  seen (cs, w) = (cs, w.response_writer)

  seen-next :
      (c : Chain O R) (w : BodyCaptureWriter perform)
      → seen (next (perform_captured perform) c w) ≡ next perform c w.response_writer
  unfolding next perform_captured
  seen-next done w = refl
  seen-next (calls (write b) k) w =
      let (answer, w') = perform_captured perform (write b) w in
      ap (λ r. (write b ∷ r.0, r.1)) (seen-next (k answer) w')
  seen-next (calls (write_string s) k) w =
      let (answer, w') = perform_captured perform (write_string s) w in
      ap (λ r. (write_string s ∷ r.0, r.1)) (seen-next (k answer) w')
  seen-next (calls (promoted o) k) w =
      let (answer, w') = perform_captured perform (promoted o) w in
      ap (λ r. (promoted o ∷ r.0, r.1)) (seen-next (k answer) w')

  next-Holds :
      (p : Text) (c : Chain O R) (w : BodyCaptureWriter perform)
      → Holds p w
      → (next (perform_captured perform) c w).1.body
        ≡ take w.limit (p ++ written (next (perform_captured perform) c w).0)
  unfolding next perform_captured
  next-Holds p done w h = h ∙ ap (take w.limit) (sym (append-nil p))
  next-Holds p (calls (write b) k) w h =
      let (answer, w') = perform_captured perform (write b) w in
      let (cs, w'') = next (perform_captured perform) (k answer) w' in
      next-Holds (p ++ b) (k answer) w' (Holds-write_captured p b w h)
      ∙ ap (take w.limit) (append_assoc p b (written cs))
  next-Holds p (calls (write_string s) k) w h =
      let (answer, w') = perform_captured perform (write_string s) w in next-Holds p (k answer) w' h
  next-Holds p (calls (promoted o) k) w h =
      let (answer, w') = perform_captured perform (promoted o) w in next-Holds p (k answer) w' h

  -- Handlers that run with a capture whose buffer is empty make the same calls, get the same answers
  -- and leave the embedded writer in the same state as without the capture. The buffer is then the
  -- start, up to the limit, of the bytes that they give to Write; what they give to WriteString
  -- reaches the client and is not in the buffer.
  pub next-perform_captured :
      (c : Chain O R) (w : BodyCaptureWriter perform)
      → w.body ≡ []
      → (seen (next (perform_captured perform) c w) ≡ next perform c w.response_writer)
        × ((next (perform_captured perform) c w).1.body
            ≡ take w.limit (written (next perform c w.response_writer).0))
  next-perform_captured c w empty = (
    seen-next c w,
    next-Holds [] c w (empty ∙ nothing w.limit)
        ∙ ap (λ r. take w.limit (written r.0)) (seen-next c w),
  )
    where
      nothing : (n : ℕ) → ◌≡◌ {A = Text} [] (take n [])
      nothing zero = refl
      nothing (suc n) = refl
