-- ===== src/Generator/Clients/Braces.antt =====
-- The braces of the printed texts.
use Prim.Native.Char.{code}
use mathlib.Core.List.{append-nil}
use platform_external_nos_ho.Base.{
  ℕ, zero, suc, ◌+◌, ◌≡◌, refl, sym, ap, ◌∙◌, ◌⊎◌, inl, inr, List, [], ◌∷◌, ◌++◌, map, length,
  Option, none, some, ◌==◌, if◌then◌else◌, arith,
}
use platform_external_nos_ho.Generator.Text.{String, StrUtil, ◌>>=◌}
use platform_external_nos_ho.Generator.Descriptor.{ServiceDescriptor, Vars, insert, Print}
use platform_external_nos_ho.Generator.Clients.{
  print, reverse_onto, print_close, source_vars, generate_mock_client, generate_client_header,
  generate_client_source,
}
use platform_external_nos_ho.Generator.Clients.Shape.{
  named_method, HandledBy, opens, closes, IsMock, generate_mock_client-IsMock, IsHeader,
  generate_client_header-IsHeader, IsSource, generate_client_source-IsSource,
}
use platform_external_nos_ho.Generator.Clients.Templates as T

abbrev below : ℕ → Option ℕ
below zero = none
below (suc d) = some d

abbrev brace : ℕ → ℕ → Option ℕ
brace d c = if c == b'{' then some (suc d) else if c == b'}' then below d else some d

-- How many braces are open behind a text, if none is closed that is not open.
abbrev pub depth_after : ℕ → String → Option ℕ
depth_after d String.[] = some d
depth_after d (String.◌∷◌ c s) = do e ← brace d (code c); depth_after e s

abbrev pub depth_behind : ℕ → List Print → Option ℕ
depth_behind d [] = some d
depth_behind d (p ∷ prints) = do e ← depth_after d p.text; depth_behind e prints

depth_behind-opens :
    (d : ℕ) (namespaces : List String) (prints : List Print)
    → depth_behind d (opens namespaces ++ prints) ≡ depth_behind (d + length namespaces) prints
depth_behind-opens d [] prints = ap (λ e. depth_behind e prints) (omega arith)
depth_behind-opens d (n ∷ namespaces) prints =
    depth_behind-opens (suc d) namespaces prints ∙ ap (λ e. depth_behind e prints) (omega arith)

depth_behind-closes :
    (d : ℕ) (namespaces : List String) (prints : List Print)
    → depth_behind (d + length namespaces) (map print_close namespaces ++ prints)
      ≡ depth_behind d prints
depth_behind-closes d [] prints = ap (λ e. depth_behind e prints) (omega arith)
depth_behind-closes d (n ∷ namespaces) prints =
    ap (λ e. depth_behind e (map print_close (n ∷ namespaces) ++ prints))
      (let e : d + length (n ∷ namespaces) ≡ suc (d + length namespaces) = omega arith in e)
    ∙ depth_behind-closes d namespaces prints

length-reverse_onto :
    (names done : List String) → length (reverse_onto names done) ≡ length names + length done
length-reverse_onto [] done = omega arith
length-reverse_onto (n ∷ names) done = omega (arith, length-reverse_onto names (n ∷ done))

depth_behind-close_all :
    (d : ℕ) (namespaces : List String) (prints : List Print)
    → depth_behind (d + length namespaces) (closes namespaces ++ prints) ≡ depth_behind d prints
depth_behind-close_all d namespaces prints =
    let same : length namespaces ≡ length (reverse_onto namespaces []) =
      omega (arith, length-reverse_onto namespaces []) in
    ap (λ e. depth_behind (d + e) (closes namespaces ++ prints)) same
    ∙ depth_behind-closes d (reverse_onto namespaces []) prints

-- Methods whose handler prints a text that leaves the depth as it is.
depth_behind-HandledBy :
    (handler : Vars → Print) (d : ℕ) (methods prints : List Print)
    → ((i name input output : String)
        → depth_after d (handler (named_method i name input output)).text ≡ some d)
    → HandledBy handler methods
    → depth_behind d (methods ++ prints) ≡ depth_behind d prints
depth_behind-HandledBy handler d [] prints keeps handled = refl
depth_behind-HandledBy handler d (m ∷ methods) prints keeps
      ((i, name, input, output, made), handled) =
    rw (made, keeps i name input output)
      (depth_behind-HandledBy handler d methods prints keeps handled)

module _ (u : StrUtil) where
  balanced_mock :
      (service : ServiceDescriptor) (prints : List Print)
      → IsMock u service prints
      → depth_behind 0 prints ≡ some 0
  balanced_mock service prints mock = rw mock.shape (
      depth_behind-opens 0 mock.namespaces _
      ∙ depth_behind-HandledBy (λ vars. print vars T.mock_method) (suc (0 + length mock.namespaces))
          mock.methods _ (λ i name input output. refl) mock.handled
      ∙ depth_behind-close_all 0 mock.namespaces _)

  balanced_header :
      (service : ServiceDescriptor) (prints : List Print)
      → IsHeader u service prints
      → depth_behind 0 prints ≡ some 0
  balanced_header service prints header =
      let deep = suc (0 + length header.namespaces) in
      rw header.shape (
        depth_behind-opens 0 header.namespaces _
        ∙ depth_behind-HandledBy (λ vars. print vars T.iface_method) deep header.declared _
            (λ i name input output. refl) header.declared_handled
        ∙ depth_behind-HandledBy (λ vars. print vars T.class_method) deep header.overridden _
            (λ i name input output. refl) header.overridden_handled
        ∙ depth_behind-close_all 0 header.namespaces _)

  balanced_source :
      (service : ServiceDescriptor) (prints : List Print)
      → IsSource u service prints
      → depth_behind 0 prints ≡ some 0
  balanced_source service prints source = rw source.shape (
      depth_behind-opens 0 source.namespaces _
      ∙ depth_behind-HandledBy (λ vars. print (insert vars (source_vars u service)) T.source_method)
          (0 + length source.namespaces) source.methods _ (λ i name input output. refl)
          source.handled
      ∙ ap (depth_behind (0 + length source.namespaces))
          (sym (append-nil (closes source.namespaces)))
      ∙ depth_behind-close_all 0 source.namespaces [])

  pub printed_balanced :
      (service : ServiceDescriptor) (prints : List Print)
      → (generate_mock_client u service ≡ some prints)
        ⊎ ((generate_client_header u service ≡ some prints)
            ⊎ (generate_client_source u service ≡ some prints))
      → depth_behind 0 prints ≡ some 0
  printed_balanced service prints (inl mock) =
      balanced_mock service prints (generate_mock_client-IsMock u service prints mock)
  printed_balanced service prints (inr (inl header)) =
      balanced_header service prints (generate_client_header-IsHeader u service prints header)
  printed_balanced service prints (inr (inr source)) =
      balanced_source service prints (generate_client_source-IsSource u service prints source)
