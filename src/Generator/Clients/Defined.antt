-- ===== src/Generator/Clients/Defined.antt =====
-- The variables of the printed texts.
use Prim.Native.Char.{code}
use platform_external_nos_ho.Base.{
  ◌≡◌, refl, ◌⊎◌, inl, inr, List, [], ◌∷◌, ◌++◌, map, All, some, Bool, true, false, ◌&&◌, not, ◌==◌,
  if◌then◌else◌,
}
use mathlib.Core.Path.{subst, sym}
use platform_external_nos_ho.Generator.Text.{String, ◌<>◌, StrUtil}
use platform_external_nos_ho.Generator.Descriptor.{ServiceDescriptor, Vars, has_key, insert, Print}
use platform_external_nos_ho.Generator.Clients.{
  print, reverse_onto, print_close, source_vars, generate_mock_client, generate_client_header,
  generate_client_source,
}
use platform_external_nos_ho.Generator.Clients.Shape.{
  named_method, HandledBy, opens, closes, IsMock, generate_mock_client-IsMock, IsHeader,
  generate_client_header-IsHeader, IsSource, generate_client_source-IsSource,
}
use platform_external_nos_ho.Generator.Clients.Templates as T

-- The names between dollar signs; `inside` is whether the name `current` has begun.
abbrev variables_from : Bool → String → String → List String
variables_from inside current String.[] = []
variables_from inside current (String.◌∷◌ c s) =
    let dollar = code c == b'$' in
    let begun = if dollar then "" else current <> String.◌∷◌ c "" in
    let rest = variables_from (if dollar then not inside else inside) begun s in
    if inside && dollar then current ∷ rest else rest

abbrev pub variables : String → List String
variables text = variables_from false "" text

-- Every variable of the text has a value.
abbrev all_defined : Vars → List String → Bool
all_defined vars [] = true
all_defined vars (name ∷ names) = has_key name vars && all_defined vars names

abbrev pub IsDefined : Print → Type 0
IsDefined p = all_defined p.vars (variables p.text) ≡ true

abbrev AllDefined : List Print → Type 0
AllDefined = All IsDefined

AllDefined-append : (xs ys : List Print) → AllDefined xs → AllDefined ys → AllDefined (xs ++ ys)
AllDefined-append [] ys h k = k
AllDefined-append (x ∷ xs) ys (p, h) k = (p, AllDefined-append xs ys h k)

opens-IsDefined : (namespaces : List String) → AllDefined (opens namespaces)
opens-IsDefined [] = tt
opens-IsDefined (n ∷ namespaces) = (refl, opens-IsDefined namespaces)

closes_of : (namespaces : List String) → AllDefined (map print_close namespaces)
closes_of [] = tt
closes_of (n ∷ namespaces) = (refl, closes_of namespaces)

closes-IsDefined : (namespaces : List String) → AllDefined (closes namespaces)
closes-IsDefined namespaces = closes_of (reverse_onto namespaces [])

HandledBy-IsDefined :
    (handler : Vars → Print) (methods : List Print)
    → ((i name input output : String) → IsDefined (handler (named_method i name input output)))
    → HandledBy handler methods
    → AllDefined methods
HandledBy-IsDefined handler [] defined handled = tt
HandledBy-IsDefined handler (m ∷ methods) defined ((i, name, input, output, made), handled) = (
  subst IsDefined (sym made) (defined i name input output),
  HandledBy-IsDefined handler methods defined handled,
)

module _ (u : StrUtil) where
  IsMock-IsDefined :
      (service : ServiceDescriptor) (prints : List Print)
      → IsMock u service prints
      → AllDefined prints
  IsMock-IsDefined service prints mock = subst AllDefined (sym mock.shape) (
    refl,
    AllDefined-append (opens mock.namespaces) _ (opens-IsDefined mock.namespaces) (
      refl,
      AllDefined-append mock.methods _
          (HandledBy-IsDefined (λ vars. print vars T.mock_method) mock.methods
            (λ i name input output. refl) mock.handled)
          (
            refl,
            AllDefined-append (closes mock.namespaces) _ (closes-IsDefined mock.namespaces)
                (refl, tt),
          ),
    ),
  )

  IsHeader-IsDefined :
      (service : ServiceDescriptor) (prints : List Print)
      → IsHeader u service prints
      → AllDefined prints
  IsHeader-IsDefined service prints header = subst AllDefined (sym header.shape) (
    refl,
    AllDefined-append (opens header.namespaces) _ (opens-IsDefined header.namespaces) (
      refl,
      AllDefined-append header.declared _
          (HandledBy-IsDefined (λ vars. print vars T.iface_method) header.declared
            (λ i name input output. refl) header.declared_handled)
          (
            refl,
            (
              refl,
              AllDefined-append header.overridden _
                  (HandledBy-IsDefined (λ vars. print vars T.class_method) header.overridden
                    (λ i name input output. refl) header.overridden_handled)
                  (
                    refl,
                    AllDefined-append (closes header.namespaces) _
                        (closes-IsDefined header.namespaces) (refl, tt),
                  ),
            ),
          ),
    ),
  )

  IsSource-IsDefined :
      (service : ServiceDescriptor) (prints : List Print)
      → IsSource u service prints
      → AllDefined prints
  IsSource-IsDefined service prints source = subst AllDefined (sym source.shape) (
    refl,
    AllDefined-append (opens source.namespaces) _ (opens-IsDefined source.namespaces) (
        AllDefined-append source.methods _
          (HandledBy-IsDefined (λ vars. print (insert vars (source_vars u service)) T.source_method)
            source.methods (λ i name input output. refl) source.handled)
          (closes-IsDefined source.namespaces)),
  )

  pub printed-IsDefined :
      (service : ServiceDescriptor) (prints : List Print)
      → (generate_mock_client u service ≡ some prints)
        ⊎ ((generate_client_header u service ≡ some prints)
            ⊎ (generate_client_source u service ≡ some prints))
      → All IsDefined prints
  printed-IsDefined service prints (inl mock) =
      IsMock-IsDefined service prints (generate_mock_client-IsMock u service prints mock)
  printed-IsDefined service prints (inr (inl header)) =
      IsHeader-IsDefined service prints (generate_client_header-IsHeader u service prints header)
  printed-IsDefined service prints (inr (inr source)) =
      IsSource-IsDefined service prints (generate_client_source-IsSource u service prints source)
