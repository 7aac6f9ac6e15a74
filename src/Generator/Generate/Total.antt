-- ===== src/Generator/Generate/Total.antt =====
-- No service whose names are well formed makes the generator's behaviour undefined.
use platform_external_nos_ho.Base.{ℕ, ◌+◌, ◌≡◌, refl, List, [], ◌∷◌, ◌++◌, All, some}
use platform_external_nos_ho.Generator.Text.{String, ◌<>◌, StrUtil, IsPiece, IsStrUtil}
use platform_external_nos_ho.Generator.Descriptor.{
  Named, MethodDescriptor, ServiceDescriptor, Vars, insert, Print,
}
use platform_external_nos_ho.Generator.Names.Laws.{
  IsNamed, packages_lem, fully_qualified_identifier-scoped, fully_qualified_header-in_directories,
}
use platform_external_nos_ho.Generator.Clients.{
  print, source_vars, for_each_method, method_vars, open_namespaces, close_namespaces,
  generate_mock_client, generate_client_header, generate_client_source,
}
use platform_external_nos_ho.Generator.Clients.Templates as T

module _ (u : StrUtil) where
  -- Full names are paths, and the file is a .proto file.
  abbrev pub HasName : Named → Type 0
  HasName d = (path : List String) × IsNamed u path d

  pub record IsWellNamed (service : ServiceDescriptor) : Type 0 where
    pub named : HasName service.named
    pub methods :
        All (λ (m : MethodDescriptor). HasName m.input_type × HasName m.output_type) service.methods
    pub directory : List String
    pub base : String
    pub file_named : service.file ≡ u.join_strings (directory ++ (base <> ".proto") ∷ []) "/"
    pub file_pieces : All (IsPiece "/") (directory ++ (base <> ".proto") ∷ [])

  module _ (laws : IsStrUtil u) where
    for_each_method-defined :
        (handler : Vars → Print) (i : ℕ) (methods : List MethodDescriptor)
        → All (λ (m : MethodDescriptor). HasName m.input_type × HasName m.output_type) methods
        → (prints : List Print) × (for_each_method u handler i methods ≡ some prints)
    unfolding for_each_method method_vars
    for_each_method-defined handler i [] named = ([], refl)
    for_each_method-defined handler i (m ∷ methods) (((p, input), (q, output)), named) =
        let (rest, printed) = for_each_method-defined handler (i + 1) methods named in
        let a = fully_qualified_identifier-scoped u laws p m.input_type input in
        let b = fully_qualified_identifier-scoped u laws q m.output_type output in
        rw (a, b, printed) (_, refl)

    pub generate_mock_client-defined :
        (service : ServiceDescriptor)
        → IsWellNamed service
        → (prints : List Print) × (generate_mock_client u service ≡ some prints)
    unfolding generate_mock_client open_namespaces close_namespaces
    generate_mock_client-defined service named =
        let (path, name) = named.named in
        let split = packages_lem u laws path service.named name in
        let (methods, printed) =
          for_each_method-defined (λ vars. print vars T.mock_method) 0 service.methods
            named.methods in
        rw (split, printed) (_, refl)

    pub generate_client_header-defined :
        (service : ServiceDescriptor)
        → IsWellNamed service
        → (prints : List Print) × (generate_client_header u service ≡ some prints)
    unfolding generate_client_header open_namespaces close_namespaces
    generate_client_header-defined service named =
        let (path, name) = named.named in
        let split = packages_lem u laws path service.named name in
        let included =
          fully_qualified_header-in_directories u laws path named.directory named.base service.named
            name named.file_pieces in
        let (declared, declares) =
          for_each_method-defined (λ vars. print vars T.iface_method) 0 service.methods
            named.methods in
        let (overridden, overrides) =
          for_each_method-defined (λ vars. print vars T.class_method) 0 service.methods
            named.methods in
        rw (named.file_named, included, split, declares, overrides) (_, refl)

    pub generate_client_source-defined :
        (service : ServiceDescriptor)
        → IsWellNamed service
        → (prints : List Print) × (generate_client_source u service ≡ some prints)
    unfolding generate_client_source open_namespaces close_namespaces
    generate_client_source-defined service named =
        let (path, name) = named.named in
        let split = packages_lem u laws path service.named name in
        let (methods, printed) =
          for_each_method-defined
            (λ vars. print (insert vars (source_vars u service)) T.source_method) 0 service.methods
            named.methods in
        rw (split, printed) (_, refl)
