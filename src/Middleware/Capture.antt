-- ===== src/Middleware/Capture.antt =====
-- middleware/gin/observability.go: what the middleware keeps of the body of a request and of a
-- response. A stream is what is left to read of an io.Reader, and the error that follows the last
-- byte, if it is not io.EOF. The writer of gin is a parameter: its state and its methods.
pub mod Writes
pub mod Bodies
use linhub.Base.{
  List, Option, Text, [], codes, drop, if◌then◌else◌, leb, length, ltb, none, some, take, ℕ, ◌++◌,
  ◌+◌, ◌-◌, ◌∷◌,
}

-- 64 * 1024.
abbrev pub max_captured_body_bytes : ℕ
max_captured_body_bytes = 65536

pub record Stream : Type 0 where
  pub rest : Text
  pub failure : Option ℕ

-- io.ReadAll(io.LimitReader(s, n)): the bytes, the error, and what is left of the stream.
unfoldable pub read_all_limited : ℕ → Stream → Text × Option ℕ × Stream
read_all_limited n s = (
  take n s.rest,
  if ltb (length s.rest) n then s.failure else none,
  record s { rest = drop n s.rest },
)

-- io.MultiReader of a buffer and a stream.
unfoldable pub multi_reader : Text → Stream → Stream
multi_reader read s = record s { rest = read ++ s.rest }

-- The text of the log for the bytes that were read.
unfoldable pub logged_body : Text → Text
logged_body body_bytes =
    if ltb max_captured_body_bytes (length body_bytes)
    then take max_captured_body_bytes body_bytes ++ codes "...[truncated]"
    else body_bytes

unfoldable pub after_read : Text × Option ℕ × Stream → Text × Stream
after_read (body_bytes, some e, s) = ([], s)
after_read (body_bytes, none, s) = (logged_body body_bytes, multi_reader body_bytes s)

-- The body that is logged, and the body that the handler is given; a request may have no body.
unfoldable pub capture_request_body : Option Stream → Text × Option Stream
capture_request_body none = ([], none)
capture_request_body (some s) =
    let (request_body, s') = after_read (read_all_limited (max_captured_body_bytes + 1) s) in
    (request_body, some s')

-- A call on the writer of gin: Write, WriteString, or another of its methods.
pub data Call (O : Type 0) : Type 0 where
  write : Text → Call O
  write_string : Text → Call O
  promoted : O → Call O

module _ {ℓ} {W : Type ℓ} {O R : Type 0} (perform : Call O → W → R × W) where
  -- A bodyCaptureWriter: the writer that it embeds, the buffer and its limit.
  pub record BodyCaptureWriter : Type ℓ where
    pub response_writer : W
    pub body : Text
    pub limit : ℕ

  abbrev pub capture : Text → BodyCaptureWriter → Text
  capture b w =
      let remain = w.limit - length w.body in
      if ltb 0 remain
      then (if leb (length b) remain then w.body ++ b else w.body ++ take remain b)
      else w.body

  -- (*bodyCaptureWriter).Write: the answer of the embedded writer, and the new state. A remainder below
  -- zero is zero here, and has the same branch.
  unfoldable pub write_captured : Text → BodyCaptureWriter → R × BodyCaptureWriter
  write_captured b w =
      let (answer, inner) = perform (write b) w.response_writer in
      (answer, record w { response_writer = inner; body = capture b w })

  -- A method that is promoted from the embedded writer.
  unfoldable pub call_embedded : Call O → BodyCaptureWriter → R × BodyCaptureWriter
  call_embedded c w =
      let (answer, inner) = perform c w.response_writer in
      (answer, record w { response_writer = inner })

  -- The methods of a bodyCaptureWriter: of those of the writer, it declares Write alone.
  unfoldable pub perform_captured : Call O → BodyCaptureWriter → R × BodyCaptureWriter
  unfolding write_captured call_embedded
  perform_captured (write b) w = write_captured b w
  perform_captured (write_string s) w = call_embedded (write_string s) w
  perform_captured (promoted o) w = call_embedded (promoted o) w

-- The rest of a chain of handlers: it is done, or it makes a call on the writer and goes on with the
-- answer.
pub data Chain (O R : Type 0) : Type 0 where
  done : Chain O R
  calls : Call O → (R → Chain O R) → Chain O R

-- c.Next(): the calls that were made, and the writer after them.
unfoldable pub next {ℓ} :
    {W : Type ℓ} {O R : Type 0} → (Call O → W → R × W) → Chain O R → W → List (Call O) × W
next perform done w = ([], w)
next perform (calls c k) w =
    let (answer, w') = perform c w in let (cs, w'') = next perform (k answer) w' in (c ∷ cs, w'')

-- The bytes that some calls give to Write.
abbrev pub written : {O : Type 0} → List (Call O) → Text
written [] = []
written (write b ∷ cs) = b ++ written cs
written (write_string s ∷ cs) = written cs
written (promoted o ∷ cs) = written cs
