-- ===== src/Generator/Names.antt =====
-- Packages, and the names that are made of them. `none` is an undefined behaviour.
pub mod Laws
use platform_external_nos_ho.Base.{List, [], ◌∷◌, Option, none, some}
use platform_external_nos_ho.Generator.Text.{String, ◌<>◌, StrUtil, pop_back, back, ◌>>=◌}
use platform_external_nos_ho.Generator.Descriptor.{Named}

module _ (u : StrUtil) where
  unfoldable pub packages : Named → Option (List String)
  packages d = pop_back (u.split_string_using d.full_name ".")

  abbrev pub identifier_in : List String → String → String
  identifier_in [] name = "::" <> name
  identifier_in (n ∷ namespaces) name = "::" <> u.join_strings (n ∷ namespaces) "::" <> "::" <> name

  unfoldable pub fully_qualified_identifier : Named → Option String
  unfolding packages
  fully_qualified_identifier d = do namespaces ← packages d; some (identifier_in namespaces d.name)

  abbrev pub header_in : List String → String → String
  header_in [] header = header
  header_in (p ∷ packages) header = u.join_strings (p ∷ packages) "/" <> "/" <> header

  -- Of a descriptor, and the name of the file that has it.
  unfoldable pub fully_qualified_header : Named → String → Option String
  unfolding packages
  fully_qualified_header d file_name = do
    packages ← packages d
    file ← back (u.split file_name "/")
    some (header_in packages (u.strip_suffix_string file ".proto" <> ".pb.h"))
