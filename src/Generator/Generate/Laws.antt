-- ===== src/Generator/Generate/Laws.antt =====
-- How `Generate` ends.
use text.Mathlib.Text.{◌==◌}
use text.Mathlib.TextEquality.{eq_iff}
use platform_external_nos_ho.Base.{
  ◌≡◌, refl, ap, ◌⊎◌, inl, inr, List, [], ◌∷◌, ◌++◌, All, true, false, some, Bool-cases, arith,
}
use platform_external_nos_ho.Generator.Text.{String, ◌<>◌, StrUtil, IsStrUtil}
use platform_external_nos_ho.Generator.Descriptor.{ServiceDescriptor}
use platform_external_nos_ho.Generator.Clients.{
  generate_mock_client, generate_client_header, generate_client_source,
}
use platform_external_nos_ho.Generator.Generate.{
  OutputFile, file, illegal_parameter, Outcome, illegal, generate_client, generate,
}
use platform_external_nos_ho.Generator.Generate.Total.{
  IsWellNamed, generate_mock_client-defined, generate_client_header-defined,
  generate_client_source-defined,
}
use platform_external_nos_ho.Generator.Generate.Validate.{Missing, IsComplete, sentence, validated}

module _ (u : StrUtil) where
  -- The file of a service: its name, and all that is printed to it.
  pub data IsFile (parameter : String) (service : ServiceDescriptor) (f : OutputFile) : Type 0 where
    mock :
        parameter ≡ "mock"
        → f.name ≡ "Mock" <> service.named.name <> ".client.h"
        → generate_mock_client u service ≡ some f.prints
        → IsFile parameter service f
    header :
        parameter ≡ "header"
        → f.name ≡ service.named.name <> ".client.h"
        → generate_client_header u service ≡ some f.prints
        → IsFile parameter service f
    source :
        parameter ≡ "source"
        → f.name ≡ service.named.name <> ".client.cpp"
        → generate_client_source u service ≡ some f.prints
        → IsFile parameter service f

  -- A file for each service, in the services' order.
  abbrev pub AreFiles : String → List ServiceDescriptor → List OutputFile → Type 0
  AreFiles parameter [] [] = Unit
  AreFiles parameter [] (f ∷ files) = ⊥
  AreFiles parameter (s ∷ services) [] = ⊥
  AreFiles parameter (s ∷ services) (f ∷ files) =
      IsFile parameter s f × AreFiles parameter services files

  abbrev pub IsLegal : String → Type 0
  IsLegal parameter = (parameter ≡ "mock") ⊎ ((parameter ≡ "header") ⊎ (parameter ≡ "source"))

  -- `*error` when all services are done.
  abbrev pub error_after : List ServiceDescriptor → String → String
  error_after [] error = error
  error_after (s ∷ services) error = ""

  -- What can become of the services, and what `*error` is then.
  pub data Ends (parameter : String) (services : List ServiceDescriptor) (error : String)
      : Outcome → Type 0 where
    finished :
        (files : List OutputFile)
        → All IsComplete services
        → AreFiles parameter services files
        → Ends parameter services error
            (record { result = true; error = error_after services error; files = files })
    incomplete :
        (before after : List ServiceDescriptor) (s : ServiceDescriptor) (option : String)
        (files : List OutputFile)
        → services ≡ before ++ s ∷ after
        → All IsComplete before
        → AreFiles parameter before files
        → Missing s.options option
        → Ends parameter services error
            (record { result = false; error = sentence option s.named.name; files = files })
    illegal_for :
        (s : ServiceDescriptor) (after : List ServiceDescriptor)
        → services ≡ s ∷ after
        → IsComplete s
        → (IsLegal parameter → ⊥)
        → Ends parameter services error (record { result = false; error = illegal; files = [] })

  legal :
      (parameter : String) (s : ServiceDescriptor) (f : OutputFile)
      → IsFile parameter s f
      → IsLegal parameter
  legal parameter s f (mock is named printed) = inl is
  legal parameter s f (header is named printed) = inr (inl is)
  legal parameter s f (source is named printed) = inr (inr is)

  not_legal :
      (parameter : String)
      → (parameter == "mock") ≡ false
      → (parameter == "header") ≡ false
      → (parameter == "source") ≡ false
      → IsLegal parameter
      → ⊥
  not_legal parameter m h s (inl is) = ground (arith, eq_iff parameter "mock")
  not_legal parameter m h s (inr (inl is)) = ground (arith, eq_iff parameter "header")
  not_legal parameter m h s (inr (inr is)) = ground (arith, eq_iff parameter "source")

  no_error : (services : List ServiceDescriptor) → error_after services "" ≡ ""
  no_error [] = refl
  no_error (s ∷ rest) = refl

  Ends-file :
      (parameter error : String) (s : ServiceDescriptor) (services : List ServiceDescriptor)
      (f : OutputFile) (o : Outcome)
      → IsComplete s
      → IsFile parameter s f
      → Ends parameter services "" o
      → Ends parameter (s ∷ services) error (record o { files = f ∷ o.files })
  Ends-file parameter error s services f o complete is (finished files all are) =
      rw (no_error services) (finished (f ∷ files) (complete, all) (is, are))
  Ends-file parameter error s services f o complete is
        (incomplete before after t option files split all are missing) =
      incomplete (s ∷ before) after t option (f ∷ files) (ap (λ l. s ∷ l) split) (complete, all)
        (is, are) missing
  Ends-file parameter error s services f o complete is (illegal_for t after split ok not) =
      absurd (not (legal parameter s f is))

  module _ (laws : IsStrUtil u) where
    client_cases :
        (parameter : String) (s : ServiceDescriptor)
        → IsWellNamed u s
        → ((f : OutputFile) × (generate_client u parameter s ≡ some (file f))
            × IsFile parameter s f)
          ⊎ ((generate_client u parameter s ≡ some illegal_parameter) × (IsLegal parameter → ⊥))
    unfolding generate_client
    client_cases parameter s named = elim (Bool-cases (parameter == "mock")) [
      | inl is_mock ↦
          let (prints, printed) = generate_mock_client-defined u laws s named in
          inl (_, rw (is_mock, printed), mock ((eq_iff parameter "mock").0 is_mock) refl printed)
      | inr not_mock ↦ elim (Bool-cases (parameter == "header")) [
        | inl is_header ↦
            let (prints, printed) = generate_client_header-defined u laws s named in
            inl (
              _,
              rw (not_mock, is_header, printed),
              header ((eq_iff parameter "header").0 is_header) refl printed,
            )
        | inr not_header ↦ elim (Bool-cases (parameter == "source")) [
          | inl is_source ↦
              let (prints, printed) = generate_client_source-defined u laws s named in
              inl (
                _,
                rw (not_mock, not_header, is_source, printed),
                source ((eq_iff parameter "source").0 is_source) refl printed,
              )
          | inr not_source ↦ inr (
            rw (not_mock, not_header, not_source),
            not_legal parameter not_mock not_header not_source,
          )
        ]
      ]
    ]

    -- For services whose names are well formed, and functions of strutil.h that do what is documented:
    -- the generator returns. If it returns true, every service has its three options and, in the
    -- services' order, the file that the parameter asks for, and `*error` is empty, or as it was if
    -- there is no service. If it returns false, either a service lacks an option, `*error` names the
    -- first such option of the first such service, and the files are those of the services before
    -- it, or the parameter is none of the three, the first service has its options, and no file is
    -- opened.
    pub generate-Ends :
        (parameter : String) (services : List ServiceDescriptor) (error : String)
        → All (IsWellNamed u) services
        → (o : Outcome) × (generate u parameter services error ≡ some o)
          × Ends parameter services error o
    unfolding generate
    generate-Ends parameter [] error named = (_, refl, finished [] tt tt)
    generate-Ends parameter (s ∷ services) error (name, named) =
        let (o, run, ends) = generate-Ends parameter services "" named in
        elim (validated s) [
          | inr (option, missing, says, not_empty) ↦
              (_, rw (not_empty, says), incomplete [] services s option [] refl tt tt missing)
          | inl (complete, passes) ↦ elim (client_cases parameter s name) [
            | inr (made, not) ↦ (_, rw (passes, made), illegal_for s services refl complete not)
            | inl (f, made, is) ↦ (
              _,
              rw (passes, made, run),
              Ends-file parameter error s services f o complete is ends,
            )
          ]
        ]
