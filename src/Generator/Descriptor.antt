-- ===== src/Generator/Descriptor.antt =====
-- What the generator reads of the protocol buffers' descriptors, and what it hands to their `Printer`.
use platform_external_nos_ho.Base.{ℕ, List, [], ◌∷◌, Bool, false, ◌||◌, Option, if◌then◌else◌}
use platform_external_nos_ho.Generator.Text.{String}
use text.Mathlib.Text.{◌==◌}

-- `full_name()` and `name()`.
pub record Named : Type 0 where
  pub full_name : String
  pub name : String

pub record MethodDescriptor : Type 0 where
  pub name : String
  pub input_type : Named
  pub output_type : Named

-- The extensions of `google.protobuf.ServiceOptions` that nugget/protobuf/options.proto declares and
-- the generator reads.
pub record ServiceOptions : Type 0 where
  pub app_id : Option String
  pub request_buffer_size : Option ℕ
  pub response_buffer_size : Option ℕ

-- `file` is the name of the file that has the service.
pub record ServiceDescriptor : Type 0 where
  pub named : Named
  pub file : String
  pub options : ServiceOptions
  pub methods : List MethodDescriptor

-- `std::map<std::string, std::string>`, a key once at most.
abbrev pub Vars : Type 0
Vars = List (String × String)

abbrev pub has_key : String → Vars → Bool
has_key key [] = false
has_key key ((k, v) ∷ vars) = (k == key) || has_key key vars

-- `insert` of the pairs of another map: a key that is there keeps its value.
abbrev pub insert : Vars → Vars → Vars
insert vars [] = vars
insert vars ((k, v) ∷ others) =
    let rest = insert vars others in if has_key k vars then rest else (k, v) ∷ rest

-- A call of `printer.Print`.
pub record Print : Type 0 where
  pub vars : Vars
  pub text : String
