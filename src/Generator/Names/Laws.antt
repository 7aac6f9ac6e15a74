-- ===== src/Generator/Names/Laws.antt =====
-- What the names are, for a descriptor whose full name is a path of packages and outer messages.
use text.Mathlib.TextLemmas.{append_assoc}
use platform_external_nos_ho.Base.{◌≡◌, refl, ap, ◌∙◌, List, [], ◌∷◌, ◌++◌, All, some}
use platform_external_nos_ho.Generator.Text.{
  String, ◌<>◌, StrUtil, IsPiece, IsSplit, IsStrUtil, pop_back, back,
}
use platform_external_nos_ho.Generator.Descriptor.{Named}
use platform_external_nos_ho.Generator.Names.{
  packages, identifier_in, fully_qualified_identifier, header_in, fully_qualified_header,
}
use Prim.Native.Char.{Char}

pop_back-append : (front : List String) (s : String) → pop_back (front ++ s ∷ []) ≡ some front
pop_back-append [] s = refl
pop_back-append (t ∷ []) s = refl
pop_back-append (t ∷ r ∷ front) s = rw (pop_back-append (r ∷ front) s)

back-append : (front : List String) (s : String) → back (front ++ s ∷ []) ≡ some s
back-append [] s = refl
back-append (t ∷ []) s = refl
back-append (t ∷ r ∷ front) s = back-append (r ∷ front) s

-- The names of a path, each behind `::`, and likewise each before a `/`.
abbrev pub scoped : List String → String → String
scoped [] name = "::" <> name
scoped (n ∷ path) name = "::" <> (n <> scoped path name)

abbrev pub in_directories : List String → String → String
in_directories [] header = header
in_directories (p ∷ path) header = p <> ("/" <> in_directories path header)

-- The full name of a descriptor: the path, and its own name.
pub record IsNamed (u : StrUtil) (path : List String) (d : Named) : Type 0 where
  pub full : d.full_name ≡ u.join_strings (path ++ d.name ∷ []) "."
  pub pieces : All (IsPiece ".") (path ++ d.name ∷ [])

module _ (u : StrUtil) (laws : IsStrUtil u) where
  split-join :
      (split : String → String → List String) (c : Char) (s : String) (rest : List String)
      → IsSplit split
      → All (IsPiece c) (s ∷ rest)
      → split (u.join_strings (s ∷ rest) (String.◌∷◌ c "")) (String.◌∷◌ c "") ≡ s ∷ rest
  split-join split c s [] ok (piece, nothing) =
      rw (laws.join_one s (String.◌∷◌ c "")) (ok.of_piece c s piece)
  split-join split c s (t ∷ rest) ok (piece, pieces) = rw (
    laws.join_more s t (String.◌∷◌ c "") rest,
    ok.of_piece_first c s (u.join_strings (t ∷ rest) (String.◌∷◌ c "")) piece,
    split-join split c t rest ok pieces,
  )

  split-join_last :
      (split : String → String → List String) (c : Char) (path : List String) (s : String)
      → IsSplit split
      → All (IsPiece c) (path ++ s ∷ [])
      → split (u.join_strings (path ++ s ∷ []) (String.◌∷◌ c "")) (String.◌∷◌ c "") ≡ path ++ s ∷ []
  split-join_last split c [] s ok pieces = split-join split c s [] ok pieces
  split-join_last split c (p ∷ path) s ok pieces = split-join split c p (path ++ s ∷ []) ok pieces

  pub packages_lem : (path : List String) (d : Named) → IsNamed u path d → packages u d ≡ some path
  unfolding packages
  packages_lem path d h = rw (
    h.full,
    split-join_last u.split_string_using "." path d.name laws.split_string_using_splits h.pieces,
    pop_back-append path d.name,
  )

  join-scoped :
      (n name : String) (path : List String)
      → u.join_strings (n ∷ path) "::" <> ("::" <> name) ≡ n <> scoped path name
  join-scoped n name [] = rw (laws.join_one n "::")
  join-scoped n name (m ∷ path) = rw (laws.join_more n m "::" path) (
      append_assoc n ("::" <> u.join_strings (m ∷ path) "::") ("::" <> name)
      ∙ ap (λ r. n <> r)
          (append_assoc "::" (u.join_strings (m ∷ path) "::") ("::" <> name)
            ∙ ap (λ r. "::" <> r) (join-scoped m name path)))

  identifier-scoped :
      (path : List String) (name : String) → identifier_in u path name ≡ scoped path name
  identifier-scoped [] name = refl
  identifier-scoped (n ∷ path) name = ap (λ r. "::" <> r) (join-scoped n name path)

  join-directories :
      (p header : String) (path : List String)
      → u.join_strings (p ∷ path) "/" <> ("/" <> header) ≡ in_directories (p ∷ path) header
  join-directories p header [] = rw (laws.join_one p "/")
  join-directories p header (q ∷ path) = rw (laws.join_more p q "/" path) (
      append_assoc p ("/" <> u.join_strings (q ∷ path) "/") ("/" <> header)
      ∙ ap (λ r. p <> r)
          (append_assoc "/" (u.join_strings (q ∷ path) "/") ("/" <> header)
            ∙ ap (λ r. "/" <> r) (join-directories q header path)))

  header-directories :
      (path : List String) (header : String) → header_in u path header ≡ in_directories path header
  header-directories [] header = refl
  header-directories (p ∷ path) header = join-directories p header path

  -- For a descriptor whose full name is a path of names that are not empty and have no dot: the
  -- identifier in the generated code is each name of the path and the descriptor's own, behind `::`.
  pub fully_qualified_identifier-scoped :
      (path : List String) (d : Named)
      → IsNamed u path d
      → fully_qualified_identifier u d ≡ some (scoped path d.name)
  unfolding fully_qualified_identifier
  fully_qualified_identifier-scoped path d h =
      rw (packages_lem path d h) (ap (λ r. some r) (identifier-scoped path d.name))

  -- For such a descriptor, in a file `<base>.proto` of a directory, none of whose names is empty or
  -- has a slash: the header that is included is `<base>.pb.h` in a directory per package, wherever
  -- the file lies.
  pub fully_qualified_header-in_directories :
      (path directory : List String) (base : String) (d : Named)
      → IsNamed u path d
      → All (IsPiece "/") (directory ++ (base <> ".proto") ∷ [])
      → fully_qualified_header u d (u.join_strings (directory ++ (base <> ".proto") ∷ []) "/")
        ≡ some (in_directories path (base <> ".pb.h"))
  unfolding fully_qualified_header
  fully_qualified_header-in_directories path directory base d h pieces =
      rw
        (
          packages_lem path d h,
          split-join_last u.split "/" directory (base <> ".proto") laws.split_splits pieces,
          back-append directory (base <> ".proto"),
          laws.strip base ".proto",
        )
        (ap (λ r. some r) (header-directories path (base <> ".pb.h")))
