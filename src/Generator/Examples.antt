-- ===== src/Generator/Examples.antt =====
-- The generator on a service for tests.
mod StrUtil
use platform_external_nos_ho.Base.{
  ◌≡◌, refl, ◌⊎◌, inl, inr, List, [], ◌∷◌, ◌++◌, map, All, Option, none, some, Bool, true, false,
  arith,
}
use mathlib.Core.Option
use text.Mathlib.TextEquality.{eq_iff}
use Prim.Native.Char.{Char}
use Prim.Native.String
use text.Mathlib.Text.{◌==◌}
use platform_external_nos_ho.Generator.Text.{String, occurs, IsPiece}
use platform_external_nos_ho.Generator.Descriptor.{
  Named, MethodDescriptor, ServiceOptions, ServiceDescriptor, Print,
}
use platform_external_nos_ho.Generator.Names.{packages, fully_qualified_identifier}
use platform_external_nos_ho.Generator.Names.Laws.{
  scoped, IsNamed, fully_qualified_identifier-scoped,
}
use platform_external_nos_ho.Generator.Clients.{generate_mock_client}
use platform_external_nos_ho.Generator.Clients.Braces.{depth_behind}
use platform_external_nos_ho.Generator.Clients.Defined.{IsDefined}
use platform_external_nos_ho.Generator.Clients.Printed.{printed_well_formed}
use platform_external_nos_ho.Generator.Generate.{generate, Outcome}
use platform_external_nos_ho.Generator.Generate.Total.{IsWellNamed, generate_mock_client-defined}
use platform_external_nos_ho.Generator.Generate.Laws.{Ends, generate-Ends}
use platform_external_nos_ho.Generator.Examples.StrUtil.{str_util, str_util-IsStrUtil}

abbrev weaver : Named
weaver = record { full_name = "nugget.app.weaver.Weaver"; name = "Weaver" }

abbrev read_request : Named
read_request = record { full_name = "nugget.app.weaver.ReadRequest"; name = "ReadRequest" }

abbrev read_response : Named
read_response = record { full_name = "nugget.app.weaver.ReadResponse"; name = "ReadResponse" }

abbrev path : List String
path = "nugget" ∷ "app" ∷ "weaver" ∷ []

abbrev service : ServiceDescriptor
service = record {
  named = weaver;
  file = "nugget/app/weaver/weaver.proto";
  options = record {
    app_id = some "WEAVER";
    request_buffer_size = some 2048;
    response_buffer_size = some 2048;
  };
  methods = record { name = "Read"; input_type = read_request; output_type = read_response } ∷ [];
}

piece : (c : Char) (s : String) → (s == "") ≡ false → occurs c s ≡ false → IsPiece c s
piece c s filled free = record {
  not_empty = λ empty. ground (arith, filled, (eq_iff s "").1 empty);
  unbroken = free;
}

named :
    (d : Named)
    → d.full_name ≡ str_util.join_strings (path ++ d.name ∷ []) "."
    → IsPiece "." d.name
    → IsNamed str_util path d
named d full last = record {
  full = full;
  pieces = (
    piece "." "nugget" refl refl,
    (piece "." "app" refl refl, (piece "." "weaver" refl refl, (last, tt))),
  );
}

weaver_IsNamed : IsNamed str_util path weaver
unfolding str_util
weaver_IsNamed = named weaver refl (piece "." "Weaver" refl refl)

service-IsWellNamed : IsWellNamed str_util service
unfolding str_util
service-IsWellNamed = record {
  named = (path, weaver_IsNamed);
  methods = (
    (
      (path, named read_request refl (piece "." "ReadRequest" refl refl)),
      (path, named read_response refl (piece "." "ReadResponse" refl refl)),
    ),
    tt,
  );
  directory = path;
  base = "weaver";
  file_named = refl;
  file_pieces = (
    piece "/" "nugget" refl refl,
    (
      piece "/" "app" refl refl,
      (piece "/" "weaver" refl refl, (piece "/" "weaver.proto" refl refl, tt)),
    ),
  );
}

fully_qualified_identifier-scoped_example :
    fully_qualified_identifier str_util weaver ≡ some "::nugget::app::weaver::Weaver"
fully_qualified_identifier-scoped_example =
    fully_qualified_identifier-scoped str_util str_util-IsStrUtil path weaver weaver_IsNamed

abbrev mock : (prints : List Print) × (generate_mock_client str_util service ≡ some prints)
mock = generate_mock_client-defined str_util str_util-IsStrUtil service service-IsWellNamed

printed_well_formed_example : All IsDefined mock.0 × (depth_behind 0 mock.0 ≡ some 0)
printed_well_formed_example = printed_well_formed str_util service mock.0 (inl mock.1)

-- A second service, whose third option is missing.
abbrev incomplete : ServiceDescriptor
incomplete = record service {
  options = record {
    app_id = some "WEAVER";
    request_buffer_size = some 2048;
    response_buffer_size = none;
  };
}

abbrev message : String
message = "nugget.protobuf.response_buffer_size is not defined for service Weaver"

abbrev summary : Outcome → Bool × String × List String
summary o = (o.result, o.error, map (λ f. f.name) o.files)

refuses :
    Option.map summary (generate str_util "mock" (service ∷ incomplete ∷ []) "")
    ≡ some (false, message, "MockWeaver.client.h" ∷ [])
unfolding generate generate_mock_client packages str_util fully_qualified_identifier
refuses = refl

incomplete-IsWellNamed : IsWellNamed str_util incomplete
incomplete-IsWellNamed = record {
  named = service-IsWellNamed.named;
  methods = service-IsWellNamed.methods;
  directory = service-IsWellNamed.directory;
  base = service-IsWellNamed.base;
  file_named = service-IsWellNamed.file_named;
  file_pieces = service-IsWellNamed.file_pieces;
}

generate-Ends_example :
    (o : Outcome) × (generate str_util "mock" (service ∷ incomplete ∷ []) "" ≡ some o)
    × Ends str_util "mock" (service ∷ incomplete ∷ []) "" o
generate-Ends_example =
    generate-Ends str_util str_util-IsStrUtil "mock" (service ∷ incomplete ∷ []) ""
      (service-IsWellNamed, (incomplete-IsWellNamed, tt))
