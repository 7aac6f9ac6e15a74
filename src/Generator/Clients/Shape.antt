-- ===== src/Generator/Clients/Shape.antt =====
-- The prints of a file, in terms of the namespaces and the methods' prints.
use mathlib.Core.Option
use mathlib.Core.Path.{subst}
use platform_external_nos_ho.Base.{ℕ, ◌+◌, ◌≡◌, sym, ap, List, [], ◌∷◌, ◌++◌, map, All, some}
use platform_external_nos_ho.Generator.Text.{String, StrUtil, >>=-eq-some}
use platform_external_nos_ho.Generator.Descriptor.{
  MethodDescriptor, ServiceDescriptor, Vars, insert, Print,
}
use platform_external_nos_ho.Generator.Names.{
  packages, fully_qualified_identifier, fully_qualified_header,
}
use platform_external_nos_ho.Generator.Clients.{
  print, reverse_onto, print_open, print_close, open_namespaces, close_namespaces, method_vars,
  for_each_method, mock_vars, generate_mock_client, header_vars, generate_client_header,
  source_vars, generate_client_source,
}
use platform_external_nos_ho.Generator.Clients.Templates as T

some_inj {ℓ} : {A : Type ℓ} {a b : A} → some a ≡ some b → a ≡ b
some_inj {a = a} h = ap (λ o. Option.get_or o a) h

-- The variables of a method.
abbrev pub named_method : String → String → String → String → Vars
named_method i name input output =
    ("method_id", i)
    ∷ ("method_name", name)
    ∷ ("method_input_type", input)
    ∷ ("method_output_type", output)
    ∷ []

-- Prints that a handler makes for methods.
abbrev pub HandledBy : (Vars → Print) → List Print → Type 0
HandledBy handler = All (λ p.
    (i : String) × (name : String) × (input : String) × (output : String) × (p
      ≡ handler (named_method i name input output)))

-- The namespaces that are opened, and closed in the opposite order.
abbrev pub opens : List String → List Print
opens namespaces = map print_open namespaces

abbrev pub closes : List String → List Print
closes namespaces = map print_close (reverse_onto namespaces [])

module _ (u : StrUtil) where
  for_each_method-HandledBy :
      (handler : Vars → Print) (i : ℕ) (methods : List MethodDescriptor) (prints : List Print)
      → for_each_method u handler i methods ≡ some prints
      → HandledBy handler prints
  unfolding for_each_method method_vars
  for_each_method-HandledBy handler i [] prints h = subst (HandledBy handler) (some_inj h) tt
  for_each_method-HandledBy handler i (method ∷ methods) prints h =
      let (vars, made, h₁) = >>=-eq-some (method_vars u i method) _ h in
      let (rest, handled, h₂) = >>=-eq-some (for_each_method u handler (i + 1) methods) _ h₁ in
      let (input, e₁, m₁) = >>=-eq-some (fully_qualified_identifier u method.input_type) _ made in
      let (output, e₂, m₂) = >>=-eq-some (fully_qualified_identifier u method.output_type) _ m₁ in
      subst (HandledBy handler) (some_inj h₂) (
        (u.to_string i, method.name, input, output, ap handler (sym (some_inj m₂))),
        for_each_method-HandledBy handler (i + 1) methods rest handled,
      )

  pub record IsMock (service : ServiceDescriptor) (prints : List Print) : Type 0 where
    pub namespaces : List String
    pub methods : List Print
    pub handled : HandledBy (λ vars. print vars T.mock_method) methods
    pub shape :
        prints
        ≡ print (mock_vars u service) T.mock_head ∷ opens namespaces
          ++ (print (mock_vars u service) T.mock_open ∷ methods
              ++ (print (mock_vars u service) T.mock_close ∷ closes namespaces
                  ++ (print (mock_vars u service) T.mock_end ∷ [])))

  pub generate_mock_client-IsMock :
      (service : ServiceDescriptor) (prints : List Print)
      → generate_mock_client u service ≡ some prints
      → IsMock service prints
  unfolding generate_mock_client open_namespaces close_namespaces
  generate_mock_client-IsMock service prints h =
      let method : Vars → Print = λ vars. print vars T.mock_method in
      let (opened, opening, h₁) = >>=-eq-some (open_namespaces u service.named) _ h in
      let (namespaces, split, _) = >>=-eq-some (packages u service.named) _ opening in
      let (methods, called, h₂) = >>=-eq-some (for_each_method u method 0 service.methods) _ h₁ in
      record {
        namespaces = namespaces;
        methods = methods;
        handled = for_each_method-HandledBy method 0 service.methods methods called;
        shape = sym (some_inj (rw (split, called) at h));
      }

  pub record IsHeader (service : ServiceDescriptor) (prints : List Print) : Type 0 where
    pub protobuf_header : String
    pub namespaces : List String
    pub declared : List Print
    pub overridden : List Print
    pub declared_handled : HandledBy (λ vars. print vars T.iface_method) declared
    pub overridden_handled : HandledBy (λ vars. print vars T.class_method) overridden
    pub shape :
        prints
        ≡ print (header_vars u service protobuf_header) T.header_head ∷ opens namespaces
          ++ (print (header_vars u service protobuf_header) T.iface_open ∷ declared
              ++ (print (header_vars u service protobuf_header) T.iface_close
                    ∷ print (header_vars u service protobuf_header) T.class_open
                    ∷ overridden
                  ++ (print (header_vars u service protobuf_header) T.class_close
                        ∷ closes namespaces
                      ++ (print (header_vars u service protobuf_header) T.header_end ∷ []))))

  IsHeader-of_parts :
      (service : ServiceDescriptor) (prints : List Print) (header : String)
      (namespaces : List String) (declared overridden : List Print)
      → fully_qualified_header u service.named service.file ≡ some header
      → packages u service.named ≡ some namespaces
      → for_each_method u (λ vars. print vars T.iface_method) 0 service.methods ≡ some declared
      → for_each_method u (λ vars. print vars T.class_method) 0 service.methods ≡ some overridden
      → generate_client_header u service ≡ some prints
      → IsHeader service prints
  unfolding generate_client_header open_namespaces close_namespaces
  IsHeader-of_parts service prints header namespaces declared overridden included split declares
        overrides h =
      record {
        protobuf_header = header;
        namespaces = namespaces;
        declared = declared;
        overridden = overridden;
        declared_handled = for_each_method-HandledBy _ 0 service.methods declared declares;
        overridden_handled = for_each_method-HandledBy _ 0 service.methods overridden overrides;
        shape = sym (some_inj (rw (included, split, declares, overrides) at h));
      }

  pub generate_client_header-IsHeader :
      (service : ServiceDescriptor) (prints : List Print)
      → generate_client_header u service ≡ some prints
      → IsHeader service prints
  unfolding generate_client_header open_namespaces
  generate_client_header-IsHeader service prints h =
      let (header, included, h₁) =
        >>=-eq-some (fully_qualified_header u service.named service.file) _ h in
      let (_, opening, h₂) = >>=-eq-some (open_namespaces u service.named) _ h₁ in
      let (namespaces, split, _) = >>=-eq-some (packages u service.named) _ opening in
      let (declared, declares, h₃) = >>=-eq-some (for_each_method u _ 0 service.methods) _ h₂ in
      let (overridden, overrides, _) = >>=-eq-some (for_each_method u _ 0 service.methods) _ h₃ in
      IsHeader-of_parts service prints header namespaces declared overridden included split declares
        overrides h

  pub record IsSource (service : ServiceDescriptor) (prints : List Print) : Type 0 where
    pub namespaces : List String
    pub methods : List Print
    pub handled :
        HandledBy (λ vars. print (insert vars (source_vars u service)) T.source_method) methods
    pub shape :
        prints
        ≡ print (source_vars u service) T.source_head ∷ opens namespaces
          ++ (methods ++ closes namespaces)

  pub generate_client_source-IsSource :
      (service : ServiceDescriptor) (prints : List Print)
      → generate_client_source u service ≡ some prints
      → IsSource service prints
  unfolding generate_client_source open_namespaces close_namespaces
  generate_client_source-IsSource service prints h =
      let method : Vars → Print =
        λ vars. print (insert vars (source_vars u service)) T.source_method in
      let (opened, opening, h₁) = >>=-eq-some (open_namespaces u service.named) _ h in
      let (namespaces, split, _) = >>=-eq-some (packages u service.named) _ opening in
      let (methods, called, h₂) = >>=-eq-some (for_each_method u method 0 service.methods) _ h₁ in
      record {
        namespaces = namespaces;
        methods = methods;
        handled = for_each_method-HandledBy method 0 service.methods methods called;
        shape = sym (some_inj (rw (split, called) at h));
      }
