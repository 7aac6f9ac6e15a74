-- ===== src/Generator/Generate.antt =====
-- `CppNuggetServiceClientGenerator::Generate`. `none` is an undefined behaviour.
pub mod Validate
pub mod Laws
pub mod Total
use text.Mathlib.Text.{◌==◌}
use platform_external_nos_ho.Base.{
  List, [], ◌∷◌, Bool, true, false, not, Option, none, some, if◌then◌else◌,
}
use platform_external_nos_ho.Generator.Text.{String, ◌<>◌, StrUtil, ◌>>=◌}
use platform_external_nos_ho.Generator.Descriptor.{ServiceDescriptor, Print}
use platform_external_nos_ho.Generator.Clients.{
  generate_mock_client, generate_client_header, generate_client_source,
}

unfoldable pub validate_service_options : ServiceDescriptor → String
validate_service_options service = elim service.options.app_id [
  | none ↦ "nugget.protobuf.app_id is not defined for service " <> service.named.name
  | some app_id ↦ elim service.options.request_buffer_size [
    | none ↦ "nugget.protobuf.request_buffer_size is not defined for service " <> service.named.name
    | some request_size ↦ elim service.options.response_buffer_size [
      | none ↦
          "nugget.protobuf.response_buffer_size is not defined for service " <> service.named.name
      | some response_size ↦ ""
    ]
  ]
]

-- `output_directory->Open`, and what is printed to the file.
pub record OutputFile : Type 0 where
  pub name : String
  pub prints : List Print

-- What the parameter makes of a service.
pub data Client : Type 0 where
  file : OutputFile → Client
  illegal_parameter : Client

-- What `Generate` returns, `*error`, and the files that have been opened, in order.
pub record Outcome : Type 0 where
  pub result : Bool
  pub error : String
  pub files : List OutputFile

abbrev pub illegal : String
illegal = "Illegal parameter: must be mock|header|source"

-- With the files of the services behind it.
abbrev pub add_client : Client → Option Outcome → Option Outcome
add_client illegal_parameter rest = some (record { result = false; error = illegal; files = [] })
add_client (file f) rest = do outcome ← rest; some (record outcome { files = f ∷ outcome.files })

module _ (u : StrUtil) where
  unfoldable pub generate_client : String → ServiceDescriptor → Option Client
  generate_client parameter service =
      if parameter == "mock"
      then (do
        prints ← generate_mock_client u service
        some
            (file (record { name = "Mock" <> service.named.name <> ".client.h"; prints = prints })))
      else if parameter == "header"
      then (do
        prints ← generate_client_header u service
        some (file (record { name = service.named.name <> ".client.h"; prints = prints })))
      else if parameter == "source"
      then (do
        prints ← generate_client_source u service
        some (file (record { name = service.named.name <> ".client.cpp"; prints = prints })))
      else some illegal_parameter

  -- The loop over the services, with `*error` as it stands; a file is opened before those of the
  -- services behind it.
  unfoldable pub generate : String → List ServiceDescriptor → String → Option Outcome
  unfolding generate_client validate_service_options
  generate parameter [] error = some (record { result = true; error = error; files = [] })
  generate parameter (service ∷ services) error =
      let message = validate_service_options service in
      let rest = generate parameter services message in
      if not (message == "")
      then some (record { result = false; error = message; files = [] })
      else (do client ← generate_client parameter service; add_client client rest)
