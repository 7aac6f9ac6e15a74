-- ===== src/Generator/Generate/Validate.antt =====
-- The check of a service's options.
use text.Mathlib.Text.{◌==◌}
use text.Mathlib.TextEquality.{eq_iff}
use text.Mathlib.TextLemmas.{append-eq-nil_iff}
use platform_external_nos_ho.Base.{
  ℕ, ◌≡◌, ◌≢◌, ◌⊎◌, inl, inr, false, none, some, Bool-cases, Option-cases, arith,
}
use platform_external_nos_ho.Generator.Text.{String, ◌<>◌}
use platform_external_nos_ho.Generator.Descriptor.{ServiceDescriptor, ServiceOptions}
use platform_external_nos_ho.Generator.Clients.{}
use platform_external_nos_ho.Generator.Generate.{validate_service_options}
use platform_external_nos_ho.Generator.Generate.Total.{}

-- The first option that is not set, by its name.
pub data Missing (o : ServiceOptions) : String → Type 0 where
  app_id : o.app_id ≡ none → Missing o "app_id"
  request_buffer_size :
      (a : String)
      → o.app_id ≡ some a
      → o.request_buffer_size ≡ none
      → Missing o "request_buffer_size"
  response_buffer_size :
      (a : String) (n : ℕ)
      → o.app_id ≡ some a
      → o.request_buffer_size ≡ some n
      → o.response_buffer_size ≡ none
      → Missing o "response_buffer_size"

-- All three options are set.
pub record IsComplete (service : ServiceDescriptor) : Type 0 where
  pub id : String
  pub request_size : ℕ
  pub response_size : ℕ
  pub has_id : service.options.app_id ≡ some id
  pub has_request_size : service.options.request_buffer_size ≡ some request_size
  pub has_response_size : service.options.response_buffer_size ≡ some response_size

abbrev pub sentence : String → String → String
sentence option service =
    ("nugget.protobuf." <> option <> " is not defined for service ") <> service

abbrev pub Validated : ServiceDescriptor → Type 0
Validated service =
    (IsComplete service × (validate_service_options service ≡ ""))
    ⊎ ((option : String) × Missing service.options option
        × (validate_service_options service ≡ sentence option service.named.name)
        × ((validate_service_options service == "") ≡ false))

not_nothing : (s t : String) → s ≢ "" → s <> t ≢ ""
not_nothing s t h e = h ((append-eq-nil_iff {p = s} {q = t}).0 e).0

sentence-filled : (option name : String) → (sentence option name == "") ≡ false
sentence-filled option name = elim (Bool-cases (sentence option name == "")) [
  | inl empty ↦
      let begins : ◌≢◌ {A = String} "nugget.protobuf." "" =
        ground (arith, eq_iff "nugget.protobuf." "") in
      absurd (
        not_nothing ("nugget.protobuf." <> option <> " is not defined for service ") name
          (not_nothing "nugget.protobuf." (option <> " is not defined for service ") begins)
          ((eq_iff (sentence option name) "").0 empty))
  | inr good ↦ good
]

pub validated : (service : ServiceDescriptor) → Validated service
unfolding validate_service_options
validated service =
    let name = service.named.name in
    elim (Option-cases service.options.app_id) [
      | inl none_id ↦
          inr ("app_id", app_id none_id, rw none_id, rw none_id (sentence-filled "app_id" name))
      | inr (a, id) ↦ elim (Option-cases service.options.request_buffer_size) [
        | inl none_request ↦ inr (
          "request_buffer_size",
          request_buffer_size a id none_request,
          rw (id, none_request),
          rw (id, none_request) (sentence-filled "request_buffer_size" name),
        )
        | inr (n, request) ↦ elim (Option-cases service.options.response_buffer_size) [
          | inl none_response ↦ inr (
            "response_buffer_size",
            response_buffer_size a n id request none_response,
            rw (id, request, none_response),
            rw (id, request, none_response) (sentence-filled "response_buffer_size" name),
          )
          | inr (m, response) ↦ inl (
            record {
              id = a;
              request_size = n;
              response_size = m;
              has_id = id;
              has_request_size = request;
              has_response_size = response;
            },
            rw (id, request, response),
          )
        ]
      ]
    ]
