-- ===== src/Otelslog.antt =====
-- otelslog/convert.go, and convert of otelslog/handler.go: the values of a log record. The log.Value
-- of OpenTelemetry and its constructors are parameters. A float and a value that is only carried are
-- numbers.
pub mod Handler
pub mod Config
pub mod Groups
mod Examples
use linhub.Base.{
  Bool, List, Text, [], codes, decimal, if◌then◌else◌, ltb, pos, ℕ, ℤ, ◌++◌, ◌-◌, ◌^◌, ◌∷◌,
}

-- The constructors of log.Value, ValueFromAttribute, the conversion of a uint64 to a float64, and
-- the keys of the semantic conventions.
pub record Otel (L : Type 0) : Type 0 where
  pub empty_value : L
  pub bool_value : Bool → L
  pub string_value : Text → L
  pub int64_value : ℤ → L
  pub float64_value : ℕ → L
  pub bytes_value : List ℕ → L
  pub slice_value : List L → L
  pub map_value : List (Text × L) → L
  pub from_attribute : ℕ → L
  pub carried : ℕ → L
  pub float_of : ℕ → ℕ
  pub int_value : ℤ → L
  pub code_file_path : Text
  pub code_function_name : Text
  pub code_line_number : Text

-- What an interface value holds, as the type switch and the kinds of reflection tell it apart; a key
-- of a map, a structure and an unknown value are given as they are printed.
mutual
  pub data Go : Type 0 where
    nil : Go
    bool : Bool → Go
    text : Text → Go
    int : ℤ → Go
    small_uint : ℕ → Go
    uint : ℕ → Go
    float : ℕ → Go
    duration : ℤ → Go
    complex : ℕ → ℕ → Go
    time : ℤ → Go
    bytes : List ℕ → Go
    error : Text → Go
    attribute : ℕ → Go
    log_value : ℕ → Go
    struct : Text → Go
    items : GoItems → Go
    entries : GoEntries → Go
    nil_pointer : Go
    pointer : Go → Go
    unknown : Text → Text → Go

  pub data GoItems : Type 0 where
    end : GoItems
    item : Go → GoItems → GoItems

  pub data GoEntries : Type 0 where
    last : GoEntries
    entry : Text → Go → GoEntries → GoEntries

max_int64 : ℕ
max_int64 = 2 ^ 63 - 1

-- The prefix "unhandled: (t) v".
unhandled : Text → Text → Text
unhandled t v = codes "unhandled: (" ++ (t ++ (codes ") " ++ v))

module _ {L : Type 0} (otel : Otel L) where
  -- convertUintValue.
  unfoldable pub convert_uint_value : ℕ → L
  unfolding max_int64
  convert_uint_value n =
      if ltb max_int64 n then otel.string_value (decimal n) else otel.int64_value (pos n)

  unfoldable mutual
    unfolding unhandled convert_uint_value

    -- convertValue.
    pub convert_value : Go → L
    convert_value nil = otel.empty_value
    convert_value (bool b) = otel.bool_value b
    convert_value (text s) = otel.string_value s
    convert_value (int n) = otel.int64_value n
    convert_value (small_uint n) = otel.int64_value (pos n)
    convert_value (uint n) = convert_uint_value n
    convert_value (float x) = otel.float64_value x
    convert_value (duration n) = otel.int64_value n
    convert_value (complex r i) =
        otel.map_value ((codes "r", otel.float64_value r) ∷ (codes "i", otel.float64_value i) ∷ [])
    convert_value (time n) = otel.int64_value n
    convert_value (bytes b) = otel.bytes_value b
    convert_value (error s) = otel.string_value s
    convert_value (attribute a) = otel.from_attribute a
    convert_value (log_value a) = otel.carried a
    convert_value (struct s) = otel.string_value s
    convert_value (items xs) = otel.slice_value (convert_items xs)
    convert_value (entries xs) = otel.map_value (convert_entries xs)
    convert_value nil_pointer = otel.empty_value
    convert_value (pointer v) = convert_value v
    convert_value (unknown t v) = otel.string_value (unhandled t v)

    -- The loop over a slice or an array.
    pub convert_items : GoItems → List L
    convert_items end = []
    convert_items (item v xs) = convert_value v ∷ convert_items xs

    -- The loop over the keys of a map.
    pub convert_entries : GoEntries → List (Text × L)
    convert_entries last = []
    convert_entries (entry k v xs) = (k, convert_value v) ∷ convert_entries xs
