-- ===== src/Generator/Clients.antt =====
-- The three files of a client: what is printed to each, in order. `none` is an undefined behaviour.
pub mod Templates
pub mod Shape
pub mod Braces
pub mod Defined
pub mod Printed
use mathlib.Core.Option
use platform_external_nos_ho.Base.{ℕ, ◌+◌, List, [], ◌∷◌, ◌++◌, map, Option, none, some}
use platform_external_nos_ho.Generator.Text.{String, ◌<>◌, StrUtil, ◌>>=◌}
use platform_external_nos_ho.Generator.Descriptor.{
  Named, MethodDescriptor, ServiceDescriptor, Vars, insert, Print,
}
use platform_external_nos_ho.Generator.Names.{
  packages, fully_qualified_identifier, fully_qualified_header,
}
use platform_external_nos_ho.Generator.Clients.Templates as T

-- `printer.Print`
abbrev pub print : Vars → String → Print
print vars text = record { vars = vars; text = text }

abbrev pub reverse_onto : List String → List String → List String
reverse_onto [] done = done
reverse_onto (n ∷ names) done = reverse_onto names (n ∷ done)

abbrev pub print_open : String → Print
print_open n = print (("namespace", n) ∷ []) T.open_namespace

abbrev pub print_close : String → Print
print_close n = print (("namespace", n) ∷ []) T.close_namespace

module _ (u : StrUtil) where
  unfoldable pub open_namespaces : Named → Option (List Print)
  open_namespaces d = do namespaces ← packages u d; some (map print_open namespaces)

  -- `crbegin` to `crend`: the last one first.
  unfoldable pub close_namespaces : Named → Option (List Print)
  close_namespaces d = do
    namespaces ← packages u d
    some (map print_close (reverse_onto namespaces []))

  unfoldable pub method_vars : ℕ → MethodDescriptor → Option Vars
  method_vars i method = do
    input ← fully_qualified_identifier u method.input_type
    output ← fully_qualified_identifier u method.output_type
    some (
        ("method_id", u.to_string i)
        ∷ ("method_name", method.name)
        ∷ ("method_input_type", input)
        ∷ ("method_output_type", output)
        ∷ [])

  -- What `handler` prints for the methods from the `i`th one on.
  unfoldable pub for_each_method : (Vars → Print) → ℕ → List MethodDescriptor → Option (List Print)
  unfolding method_vars
  for_each_method handler i [] = some []
  for_each_method handler i (method ∷ methods) = do
    vars ← method_vars i method
    rest ← for_each_method handler (i + 1) methods
    some (handler vars ∷ rest)

  abbrev pub mock_vars : ServiceDescriptor → Vars
  mock_vars service =
      ("include_guard", "PROTOC_GENERATED_MOCK_" <> service.named.name <> "_CLIENT_H")
      ∷ ("service_header", service.named.name <> ".client.h")
      ∷ ("mock_class", "Mock" <> service.named.name)
      ∷ ("class", service.named.name)
      ∷ []

  unfoldable pub generate_mock_client : ServiceDescriptor → Option (List Print)
  unfolding open_namespaces close_namespaces for_each_method
  generate_mock_client service = do
    let vars = mock_vars service
    opens ← open_namespaces service.named
    methods ← for_each_method (λ method_vars. print method_vars T.mock_method) 0 service.methods
    closes ← close_namespaces service.named
    some (
        print vars T.mock_head ∷ opens
        ++ (print vars T.mock_open ∷ methods
            ++ (print vars T.mock_close ∷ closes ++ (print vars T.mock_end ∷ []))))

  -- `GetExtension` of an option that is not there is empty.
  abbrev pub header_vars : ServiceDescriptor → String → Vars
  header_vars service protobuf_header =
      ("include_guard", "PROTOC_GENERATED_" <> service.named.name <> "_CLIENT_H")
      ∷ ("protobuf_header", protobuf_header)
      ∷ ("class", service.named.name)
      ∷ ("iface_class", "I" <> service.named.name)
      ∷ ("app_id", "APP_ID_" <> Option.get_or service.options.app_id "")
      ∷ []

  unfoldable pub generate_client_header : ServiceDescriptor → Option (List Print)
  unfolding open_namespaces close_namespaces for_each_method fully_qualified_header
  generate_client_header service = do
    protobuf_header ← fully_qualified_header u service.named service.file
    let vars = header_vars service protobuf_header
    opens ← open_namespaces service.named
    declared ← for_each_method (λ method_vars. print method_vars T.iface_method) 0 service.methods
    overridden ← for_each_method (λ method_vars. print method_vars T.class_method) 0 service.methods
    closes ← close_namespaces service.named
    some (
        print vars T.header_head ∷ opens
        ++ (print vars T.iface_open ∷ declared
            ++ (print vars T.iface_close ∷ print vars T.class_open ∷ overridden
                ++ (print vars T.class_close ∷ closes ++ (print vars T.header_end ∷ [])))))

  abbrev pub source_vars : ServiceDescriptor → Vars
  source_vars service =
      ("generated_header", service.named.name <> ".client.h")
      ∷ ("class", service.named.name)
      ∷ ("max_request_size", u.to_string (Option.get_or service.options.request_buffer_size 0))
      ∷ ("max_response_size", u.to_string (Option.get_or service.options.response_buffer_size 0))
      ∷ []

  unfoldable pub generate_client_source : ServiceDescriptor → Option (List Print)
  unfolding open_namespaces close_namespaces for_each_method
  generate_client_source service = do
    let vars = source_vars service
    opens ← open_namespaces service.named
    methods ←
        for_each_method (λ method_vars. print (insert method_vars vars) T.source_method) 0
          service.methods
    closes ← close_namespaces service.named
    some (print vars T.source_head ∷ opens ++ (methods ++ closes))
