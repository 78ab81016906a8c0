-- ===== src/Otelslog/Examples.antt =====
-- otelslog/handler.go: the theorems for values that are printed as texts.
use linhub.Otelslog.{Otel}
use linhub.Otelslog.Handler.{
  Attrs, Record, attr, convert_record, flat, no_attrs, source_attributes, string_value,
}
use linhub.Otelslog.Config.{new_config, new_handler, with_source}
use linhub.Otelslog.Groups.{Op, attrs_op, derive, group_op, nested}
use linhub.Otelslog.Groups.Nesting.{Separate, convert_record-nested}
use linhub.Base.{
  Bool, List, Text, [], codes, decimal, false, negsuc, pos, refl, suc, true, ℤ, ◌++◌, ◌∷◌, ◌≡◌,
}

printed : List (Text × Text) → Text
printed [] = []
printed ((k, v) ∷ kvs) = k ++ (61 ∷ v ++ (59 ∷ printed kvs))

joined : List Text → Text
joined [] = []
joined (s ∷ ss) = s ++ (59 ∷ joined ss)

bool_text : Bool → Text
bool_text true = codes "true"
bool_text false = codes "false"

int_text : ℤ → Text
int_text (pos n) = decimal n
int_text (negsuc n) = 45 ∷ decimal (suc n)

texts : Otel Text
unfolding printed joined bool_text int_text
texts = record {
  empty_value = [];
  bool_value = bool_text;
  string_value = λ s. s;
  int64_value = int_text;
  float64_value = decimal;
  bytes_value = λ b. b;
  slice_value = joined;
  map_value = λ kvs. 123 ∷ printed kvs ++ (125 ∷ []);
  from_attribute = decimal;
  carried = decimal;
  float_of = λ n. n;
  int_value = int_text;
  code_file_path = codes "file";
  code_function_name = codes "function";
  code_line_number = codes "line";
}

one : Text → Text → Attrs
one k v = attr k (string_value v) no_attrs

calls : List Op
unfolding one
calls =
    attrs_op (one (codes "a") (codes "1"))
    ∷ group_op (codes "G")
    ∷ attrs_op (one (codes "b") (codes "2"))
    ∷ group_op (codes "H")
    ∷ []

message : Record
unfolding one
message = record {
  time = pos 0;
  message = codes "m";
  level = pos 4;
  frame = (codes "f.go", codes "f", pos 3);
  attrs = one (codes "c") (codes "3");
}

nested_text :
    nested texts calls (flat texts message.attrs)
    ≡ (codes "a", codes "1") ∷ (codes "G", codes "{b=2;H={c=3;};}") ∷ []
unfolding nested calls message one flat texts printed
nested_text = refl

calls-Separate : Separate texts false calls
unfolding calls one flat
calls-Separate = (refl, (refl, tt))

convert_record-nested_example :
    (convert_record texts
      (derive texts calls (new_handler 0 (with_source true ∷ [])))
      message).attributes
    ≡ source_attributes texts (new_config 0 (with_source true ∷ [])).source message.frame
      ++ nested texts calls (flat texts message.attrs)
unfolding message one flat
convert_record-nested_example =
    convert_record-nested texts 0 (with_source true ∷ []) calls message calls-Separate refl
