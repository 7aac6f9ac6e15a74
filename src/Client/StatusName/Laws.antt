-- ===== src/Client/StatusName/Laws.antt =====
-- What a status code's name tells.
use mathlib.Core.Option
use mathlib.Core.Path.{subst}
use Prim.Native.String.{String, ◌++◌ as ◌<>◌, slice}
use text.Mathlib.Text.{◌==◌ as ◌=?◌, starts_with}
use text.Mathlib.TextLemmas.{append_assoc, append_cancel_left}
use text.Mathlib.TextPositions.{slice-append_left, starts_with-append}
use platform_external_nos_ho.Base.{
  ℕ, ◌^◌, ◌≤◌, ◌<◌, ◌≡◌, ◌≢◌, refl, sym, ap, ◌∙◌, ◌&&◌, ltb, leb, ◌==◌, if◌then◌else◌, Option, none,
  some, ==_iff, Bool-cases, inl, inr, arith,
}
use platform_external_nos_ho.Application.AppStatus.{
  app_success, app_error_bogus_args, app_error_internal, app_error_too_much, app_error_io,
  app_error_rpc, app_error_checksum, app_error_busy, app_error_timeout, app_specific_error,
  app_line_number_base, max_app_status,
}
use platform_external_nos_ho.Client.StatusName.{from_base, default_string, status_code_string}

-- The code of a plain name.
abbrev plain : String → Option ℕ
plain s =
    if s =? "APP_SUCCESS"
    then some app_success
    else if s =? "APP_ERROR_BOGUS_ARGS"
    then some app_error_bogus_args
    else if s =? "APP_ERROR_INTERNAL"
    then some app_error_internal
    else if s =? "APP_ERROR_TOO_MUCH"
    then some app_error_too_much
    else if s =? "APP_ERROR_IO"
    then some app_error_io
    else if s =? "APP_ERROR_RPC"
    then some app_error_rpc
    else if s =? "APP_ERROR_CHECKSUM"
    then some app_error_checksum
    else if s =? "APP_ERROR_BUSY"
    then some app_error_busy
    else if s =? "APP_ERROR_TIMEOUT"
    then some app_error_timeout
    else none

-- By what a name begins with.
abbrev family : String → ℕ
family s =
    if starts_with s "APP_LINE_NUMBER " then 1 else if starts_with s "APP_SPECIFIC_" then 2 else 0

module _ (to_string : ℕ → String) where
  data Said (code : ℕ) (s : String) : Type 0 where
    name : plain s ≡ some code → family s ≡ 0 → Said code s
    line :
        app_line_number_base ≤ code
        → s ≡ "APP_LINE_NUMBER " <> to_string (from_base code)
        → Said code s
    specific :
        code < app_line_number_base
        → s
          ≡ "APP_SPECIFIC_ERROR "
            <> to_string app_line_number_base
            <> " + "
            <> to_string (from_base code)
        → Said code s
    unknown : s ≡ "unknown" → Said code s

  Said-case :
      (code c : ℕ) (s rest : String)
      → plain s ≡ some c
      → family s ≡ 0
      → Said code rest
      → Said code (if code == c then s else rest)
  Said-case code c s rest p f said = elim (Bool-cases (code == c)) [
    | inl is ↦
        let same : code ≡ c = (==_iff code c).0 is in
        rw is (name (p ∙ ap (λ n. some n) (sym same)) f)
    | inr other ↦ rw other said
  ]

  default_string-Said : (code : ℕ) → code < 2 ^ 32 → Said code (default_string to_string code)
  unfolding default_string
  default_string-Said code small =
      elim (Bool-cases (leb app_line_number_base code && ltb code max_app_status)) [
        | inl is ↦ rw is (line (ground arith) refl)
        | inr other ↦
            elim (Bool-cases (leb app_specific_error code && ltb code app_line_number_base)) [
              | inl is ↦ rw (other, is) (specific (ground arith) refl)
              | inr neither ↦ rw (other, neither) (unknown refl)
            ]
      ]

  status_code_string-Said :
      (code : ℕ) → code < 2 ^ 32 → Said code (status_code_string to_string code)
  unfolding status_code_string
  status_code_string-Said code small = Said-case code app_success "APP_SUCCESS" _ refl refl (
      Said-case code app_error_bogus_args "APP_ERROR_BOGUS_ARGS" _ refl refl (
        Said-case code app_error_internal "APP_ERROR_INTERNAL" _ refl refl (
          Said-case code app_error_too_much "APP_ERROR_TOO_MUCH" _ refl refl (
            Said-case code app_error_io "APP_ERROR_IO" _ refl refl (
              Said-case code app_error_rpc "APP_ERROR_RPC" _ refl refl (
                Said-case code app_error_checksum "APP_ERROR_CHECKSUM" _ refl refl (
                  Said-case code app_error_busy "APP_ERROR_BUSY" _ refl refl (
                    Said-case code app_error_timeout "APP_ERROR_TIMEOUT" _ refl refl
                      (default_string-Said code small)))))))))

  family-line : (t : String) → family ("APP_LINE_NUMBER " <> t) ≡ 1
  family-line t = rw (starts_with-append "APP_LINE_NUMBER " t)

  -- Sixteen characters, as many as of the other family's beginning.
  family-specific : (t : String) → family ("APP_SPECIFIC_ERROR " <> t) ≡ 2
  family-specific t =
      let sixteen : slice ("APP_SPECIFIC_ERROR " <> t) 0 16 ≡ "APP_SPECIFIC_ERR" =
        ap (λ s. slice s 0 16) (append_assoc "APP_SPECIFIC_ERR" "OR " t)
        ∙ slice-append_left "APP_SPECIFIC_ERR" ("OR " <> t) in
      let thirteen : slice ("APP_SPECIFIC_ERROR " <> t) 0 13 ≡ "APP_SPECIFIC_" =
        ap (λ s. slice s 0 13) (append_assoc "APP_SPECIFIC_" "ERROR " t)
        ∙ slice-append_left "APP_SPECIFIC_" ("ERROR " <> t) in
      rw (sixteen, thirteen)

  from_base-inj :
      (code code' : ℕ)
      → code < 2 ^ 32
      → code' < 2 ^ 32
      → from_base code ≡ from_base code'
      → code ≡ code'
  from_base-inj code code' small small' h = omega arith

  -- The code that a family's name tells.
  told :
      (code code' : ℕ) (prefix : String)
      → ((m n : ℕ) → to_string m ≡ to_string n → m ≡ n)
      → code < 2 ^ 32
      → code' < 2 ^ 32
      → prefix <> to_string (from_base code) ≡ prefix <> to_string (from_base code')
      → code ≡ code'
  told code code' prefix distinct small small' h = from_base-inj code code' small small' (
      distinct (from_base code) (from_base code')
        (append_cancel_left prefix (to_string (from_base code)) (to_string (from_base code')) h))

  of_line : (s t : String) → s ≡ "APP_LINE_NUMBER " <> t → family s ≡ 1
  of_line s t e = ap family e ∙ family-line t

  of_specific : (s t : String) → s ≡ "APP_SPECIFIC_ERROR " <> t → family s ≡ 2
  of_specific s t e = ap family e ∙ family-specific t

  apart : {m n : ℕ} (s : String) → family s ≡ m → family s ≡ n → (m ≡ n → ⊥) → ⊥
  apart s f g differ = differ (sym f ∙ g)

  Said-inj :
      (code code' : ℕ) (s : String)
      → ((m n : ℕ) → to_string m ≡ to_string n → m ≡ n)
      → code < 2 ^ 32
      → code' < 2 ^ 32
      → s ≢ "unknown"
      → Said code s
      → Said code' s
      → code ≡ code'
  Said-inj code code' s distinct small small' known (unknown u) said = absurd (known u)
  Said-inj code code' s distinct small small' known said (unknown u) = absurd (known u)
  Said-inj code code' s distinct small small' known (name p f) (name q g) =
      ap (λ o. Option.get_or o 0) (sym p ∙ q)
  Said-inj code code' s distinct small small' known (line b e) (line b' e') =
      told code code' "APP_LINE_NUMBER " distinct small small' (sym e ∙ e')
  Said-inj code code' s distinct small small' known (specific b e) (specific b' e') =
      let base = to_string app_line_number_base in
      told code code' " + " distinct small small' (
        append_cancel_left base (" + " <> to_string (from_base code))
          (" + " <> to_string (from_base code'))
          (append_cancel_left "APP_SPECIFIC_ERROR " _ _ (sym e ∙ e')))
  Said-inj code code' s distinct small small' known (name p f) (line b e) =
      absurd (apart s f (of_line s _ e) (λ h. omega arith))
  Said-inj code code' s distinct small small' known (line b e) (name p f) =
      absurd (apart s f (of_line s _ e) (λ h. omega arith))
  Said-inj code code' s distinct small small' known (name p f) (specific b e) =
      absurd (apart s f (of_specific s _ e) (λ h. omega arith))
  Said-inj code code' s distinct small small' known (specific b e) (name p f) =
      absurd (apart s f (of_specific s _ e) (λ h. omega arith))
  Said-inj code code' s distinct small small' known (line b e) (specific b' e') =
      absurd (apart s (of_line s _ e) (of_specific s _ e') (λ h. omega arith))
  Said-inj code code' s distinct small small' known (specific b' e') (line b e) =
      absurd (apart s (of_line s _ e) (of_specific s _ e') (λ h. omega arith))

  -- Where to_string tells numbers apart: no two 32-bit status codes have the same name, but for those
  -- whose name is "unknown".
  pub status_code_string_injective :
      (code code' : ℕ)
      → ((m n : ℕ) → to_string m ≡ to_string n → m ≡ n)
      → code < 2 ^ 32
      → code' < 2 ^ 32
      → status_code_string to_string code ≢ "unknown"
      → status_code_string to_string code ≡ status_code_string to_string code'
      → code ≡ code'
  status_code_string_injective code code' distinct small small' known same =
      Said-inj code code' (status_code_string to_string code) distinct small small' known
        (status_code_string-Said code small)
        (subst (Said code') (sym same) (status_code_string-Said code' small'))
