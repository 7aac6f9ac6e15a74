-- ===== src/Generator/Clients/Printed.antt =====
-- What the compiler of the generated code relies on.
use platform_external_nos_ho.Base.{◌≡◌, ◌⊎◌, List, All, some}
use platform_external_nos_ho.Generator.Text.{StrUtil}
use platform_external_nos_ho.Generator.Descriptor.{ServiceDescriptor, Print}
use platform_external_nos_ho.Generator.Clients.{
  generate_mock_client, generate_client_header, generate_client_source,
}
use platform_external_nos_ho.Generator.Clients.Braces.{depth_behind, printed_balanced}
use platform_external_nos_ho.Generator.Clients.Defined.{IsDefined, printed-IsDefined}

module _ (u : StrUtil) where
  -- Whatever the service and the functions of strutil.h are: in a file that is printed, of any of the
  -- three kinds, every variable that a text names has a value, no brace is closed in the texts that
  -- is not open, and none is left open.
  pub printed_well_formed :
      (service : ServiceDescriptor) (prints : List Print)
      → (generate_mock_client u service ≡ some prints)
        ⊎ ((generate_client_header u service ≡ some prints)
            ⊎ (generate_client_source u service ≡ some prints))
      → All IsDefined prints × (depth_behind 0 prints ≡ some 0)
  printed_well_formed service prints made =
      (printed-IsDefined u service prints made, printed_balanced u service prints made)
