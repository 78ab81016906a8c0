-- ===== src/Otelslog/Handler.antt =====
-- otelslog/handler.go: the handler, and the record that it makes for OpenTelemetry. A nil buffer is an
-- empty list, since Len and KeyValues treat both alike; the linked groups are a list, the innermost
-- first. What append shares between copies of a buffer is left out.
use linhub.Otelslog.{Go, Otel, convert_value, nil}
use linhub.Base.{
  Bool, List, Text, [], codes, decimal, eq_ℤ, false, if◌then◌else◌, is_empty, leb_ℤ, ltb, ltb_ℤ,
  negsuc, pos, suc, true, ℕ, ℤ, ◌&&◌, ◌++◌, ◌+ℤ◌, ◌-ℤ◌, ◌-◌, ◌^◌, ◌∷◌,
}

-- slog.Value by its kind; a LogValuer is given with what Resolve returns for it.
mutual
  pub data Value : Type 0 where
    any_value : Go → Value
    bool_value : Bool → Value
    duration_value : ℤ → Value
    float64_value : ℕ → Value
    int64_value : ℤ → Value
    string_value : Text → Value
    time_value : ℤ → Value
    uint64_value : ℕ → Value
    group_value : Attrs → Value
    log_valuer : Value → Value

  pub data Attrs : Type 0 where
    no_attrs : Attrs
    attr : Text → Value → Attrs → Attrs

-- attr.Value.Any() == nil.
abbrev pub is_nil : Value → Bool
is_nil (any_value nil) = true
is_nil _ = false

abbrev pub is_nonempty {ℓ} : {A : Type ℓ} → List A → Bool
is_nonempty [] = false
is_nonempty (_ ∷ _) = true

pub record Group (L : Type 0) : Type 0 where
  pub name : Text
  pub attrs : List (Text × L)

pub record Handler (L : Type 0) : Type 0 where
  pub attrs : List (Text × L)
  pub group : List (Group L)
  pub level : ℤ
  pub source : Bool

-- slog.Record, with the frame that its program counter stands for.
pub record Record : Type 0 where
  pub time : ℤ
  pub message : Text
  pub level : ℤ
  pub frame : Text × Text × ℤ
  pub attrs : Attrs

-- The record for OpenTelemetry; the attributes are in the order they are added.
pub record LogRecord (L : Type 0) : Type 0 where
  pub timestamp : ℤ
  pub body : L
  pub severity : ℤ
  pub severity_text : Text
  pub attributes : List (Text × L)

signed : ℤ → Text
signed (pos n) = 43 ∷ decimal n
signed (negsuc n) = 45 ∷ decimal (suc n)

named_level : Text → ℤ → Text
unfolding signed
named_level base d = if eq_ℤ d (pos 0) then base else base ++ signed d

-- (slog.Level).String.
unfoldable pub level_text : ℤ → Text
unfolding named_level
level_text l =
    if ltb_ℤ l (pos 0)
    then named_level (codes "DEBUG") (l +ℤ pos 4)
    else if ltb_ℤ l (pos 4)
    then named_level (codes "INFO") l
    else if ltb_ℤ l (pos 8)
    then named_level (codes "WARN") (l -ℤ pos 4)
    else named_level (codes "ERROR") (l -ℤ pos 8)

-- The severity of a level: SeverityDebug is 5 and LevelDebug is -4.
unfoldable pub severity_of : ℤ → ℤ
severity_of l = l +ℤ pos 9

module _ {L : Type 0} (otel : Otel L) where
  max_signed : ℕ
  max_signed = 2 ^ 63 - 1

  unfoldable mutual
    unfolding max_signed

    pub convert : Value → L
    convert (any_value v) = convert_value otel v
    convert (bool_value b) = otel.bool_value b
    convert (duration_value n) = otel.int64_value n
    convert (float64_value x) = otel.float64_value x
    convert (int64_value n) = otel.int64_value n
    convert (string_value s) = otel.string_value s
    convert (time_value n) = otel.int64_value n
    convert (uint64_value n) =
        if ltb max_signed n then otel.float64_value (otel.float_of n) else otel.int64_value (pos n)
    convert (group_value g) = otel.map_value (flat g)
    convert (log_valuer v) = convert v

    -- What AddAttr adds for each attribute in turn.
    pub flat : Attrs → List (Text × L)
    flat no_attrs = []
    flat (attr k (group_value g) rest) =
        let inner = flat g in
        (if is_empty k then inlined g else (k, otel.map_value inner) ∷ []) ++ flat rest
    flat (attr k v rest) =
        let out = convert v in (if is_empty k && is_nil v then [] else (k, out) ∷ []) ++ flat rest

    -- The loop over the attributes of a group without a key.
    pub inlined : Attrs → List (Text × L)
    inlined no_attrs = []
    inlined (attr k v rest) = (k, convert v) ∷ inlined rest

  -- The loop of KeyValue over the groups around one that is written.
  unfoldable pub outer : List (Group L) → Text × L → Text × L
  outer [] out = out
  outer (g ∷ gs) out =
      outer gs (if is_nonempty g.attrs then (g.name, otel.map_value (g.attrs ++ out ∷ [])) else out)

  -- KeyValue of a group, which is the first of the list, and of those around it.
  unfoldable pub key_value : Group L → List (Group L) → List (Text × L) → Text × L
  key_value g gs kvs = outer gs (g.name, otel.map_value (g.attrs ++ kvs))

  -- NextNonEmpty.
  unfoldable pub next_non_empty : List (Group L) → List (Group L)
  next_non_empty [] = []
  next_non_empty (g ∷ gs) =
      let rest = next_non_empty gs in if is_nonempty g.attrs then g ∷ gs else rest

  unfoldable pub next_group : List (Group L) → List (Text × L)
  unfolding key_value
  next_group [] = []
  next_group (g ∷ gs) = key_value g gs [] ∷ []

  -- What convertRecord adds for the attributes of the record.
  unfoldable pub record_attributes : List (Group L) → Attrs → List (Text × L)
  unfolding key_value next_non_empty next_group
  record_attributes [] rec = flat rec
  record_attributes (g ∷ gs) no_attrs = next_group (next_non_empty (g ∷ gs))
  record_attributes (g ∷ gs) (attr k v rec) = key_value g gs (flat (attr k v rec)) ∷ []

  unfoldable pub source_attributes : Bool → Text × Text × ℤ → List (Text × L)
  source_attributes false frame = []
  source_attributes true (file, function, line) =
      (otel.code_file_path, otel.string_value file)
      ∷ (otel.code_function_name, otel.string_value function)
      ∷ (otel.code_line_number, otel.int_value line)
      ∷ []

  -- convertRecord; Handle emits its result and returns no error.
  unfoldable pub convert_record : Handler L → Record → LogRecord L
  unfolding severity_of level_text record_attributes source_attributes
  convert_record h r = record {
    timestamp = r.time;
    body = otel.string_value r.message;
    severity = severity_of r.level;
    severity_text = level_text r.level;
    attributes =
        source_attributes h.source r.frame ++ (h.attrs ++ record_attributes h.group r.attrs);
  }

  unfoldable pub add_to_group : List (Group L) → Attrs → Handler L → Handler L
  add_to_group [] as' h = record h { attrs = h.attrs ++ flat as' }
  add_to_group (g ∷ gs) as' h = record h { group = record g { attrs = g.attrs ++ flat as' } ∷ gs }

  -- WithAttrs.
  unfoldable pub with_attrs : Attrs → Handler L → Handler L
  unfolding add_to_group
  with_attrs as' h = add_to_group h.group as' h

  -- WithGroup.
  unfoldable pub with_group : Text → Handler L → Handler L
  with_group name h = record h { group = record { name = name; attrs = [] } ∷ h.group }

-- Enabled, for what the logger answers at a severity.
unfoldable pub enabled : {L : Type 0} → (ℤ → Bool) → Handler L → ℤ → Bool
unfolding severity_of
enabled logger_enabled h l = if logger_enabled (severity_of l) then true else leb_ℤ h.level l
