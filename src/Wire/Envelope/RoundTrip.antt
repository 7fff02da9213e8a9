-- ===== src/Wire/Envelope/RoundTrip.antt =====
-- Requests and responses are read back, and what happens to those of 2^31 bytes and more.
use co_fhe.Base.{
  ℕ, ◌-◌, ◌^◌, ◌≤◌, ◌<◌, ◌≡◌, refl, ap, ◌∙◌, ◌==◌, false, lt→ltb, Option, some, List, [], ◌∷◌, ◌++◌,
  append_assoc, length, Bytes, arith,
}
use co_fhe.Wire.Stream.{newline, split_line, Width, int, size_t, Fits}
use co_fhe.Wire.Fields.{
  int_to_string-Fits, extract_all, AllFit, widths, values, fields_line, extract_all-behind,
  extract_all-too_large, extract_all-fields_line, split_line-fields_line,
}
use co_fhe.Wire.Enums.{
  Status, status, StatusNamed, ProtocolVersion, protocol_version, ProtocolVersionNamed, ServiceType,
  service_type, ServiceTypeNamed,
}
use co_fhe.Wire.Outcome.{returned, thrown, data_size_mismatch, ◌>>=◌}
use co_fhe.Wire.Headed.RoundTrip.{beq_refl}
use co_fhe.Wire.Lined.{read_lined}
use co_fhe.Wire.Lined.RoundTrip.{read_lined-fields_line, read_lined-too_large}
use co_fhe.Wire.Envelope.{
  to_size, RequestHeader, request_header_to_string, request_header_of, request_header_from_string,
  make_request, request_to_string, request_of, request_from_string, ResponseHeader,
  response_header_to_string, response_header_of, response_header_from_string, Response,
  make_response, response_to_string, response_of, response_from_string,
}

to_size-small : (n : ℕ) → n < 2 ^ 31 → to_size n ≡ n
to_size-small n small = rw (lt→ltb n (2 ^ 31) small)

not_largest : (n : ℕ) → 2 ^ 31 ≤ n → (n == 2 ^ 31 - 1) ≡ false
not_largest n large = ground arith

module _ (h : RequestHeader) (ver : ProtocolVersionNamed h.version)
    (type : ServiceTypeNamed h.service) where
  abbrev pub request_front : List (Width × ℕ)
  request_front =
      (int, protocol_version.to_int h.version) ∷ (int, service_type.to_int h.service) ∷ []

  request_front-AllFit : AllFit request_front
  request_front-AllFit =
      (protocol_version.to_int-Fits h.version ver, (service_type.to_int-Fits h.service type, tt))

  pub request_header_line :
      (w : Width) (content : Bytes)
      → request_header_to_string h ++ content
        ≡ fields_line (request_front ++ (w, h.data_size) ∷ []) ++ newline ∷ content
  unfolding request_header_to_string
  request_header_line w content =
      rw
        (
          int_to_string-Fits (protocol_version.to_int h.version)
              (protocol_version.to_int-Fits h.version ver),
          int_to_string-Fits (service_type.to_int h.service)
              (service_type.to_int-Fits h.service type),
        )
        (simp append_assoc)

  request_header_of-named :
      (n : ℕ)
      → request_header_of (values (request_front ++ (int, n) ∷ []))
        ≡ returned (record { version = h.version; service = h.service; data_size = to_size n })
  request_header_of-named n =
      rw (protocol_version.of_int-to_int h.version ver, service_type.of_int-to_int h.service type)

-- The header of a request with named fields and less than 2^31 bytes of data is read back, whatever
-- stands behind it.
pub request_header_from_string-to_string :
    (h : RequestHeader)
    → ProtocolVersionNamed h.version
    → ServiceTypeNamed h.service
    → h.data_size < 2 ^ 31
    → (rest : Bytes) → request_header_from_string (request_header_to_string h ++ rest) ≡ returned h
unfolding request_header_from_string
request_header_from_string-to_string h ver type small rest =
    ap (λ s. request_header_of (extract_all (int ∷ int ∷ int ∷ []) (some s)))
      (request_header_line h ver type int rest)
    ∙ ap request_header_of (
        extract_all-behind (request_front h ver type ++ (int, h.data_size) ∷ []) (newline ∷ rest)
          (
            protocol_version.to_int-Fits h.version ver,
            (service_type.to_int-Fits h.service type, (small, tt)),
          )
          refl)
    ∙ request_header_of-named h ver type h.data_size
    ∙ ap (λ n. returned (record { version = h.version; service = h.service; data_size = n }))
        (to_size-small h.data_size small)

-- Of a request with named fields and 2^31 bytes of data or more the header says 2^31 - 1 when it is
-- read, whatever stands behind it.
pub request_header_from_string-too_large :
    (h : RequestHeader)
    → ProtocolVersionNamed h.version
    → ServiceTypeNamed h.service
    → 2 ^ 31 ≤ h.data_size
    → (rest : Bytes)
    → request_header_from_string (request_header_to_string h ++ rest)
      ≡ returned (record { version = h.version; service = h.service; data_size = 2 ^ 31 - 1 })
unfolding request_header_from_string
request_header_from_string-too_large h ver type large rest =
    ap (λ s. request_header_of (extract_all (int ∷ int ∷ int ∷ []) (some s)))
      (request_header_line h ver type int rest)
    ∙ ap request_header_of (
        extract_all-too_large (request_front h ver type) h.data_size (newline ∷ rest)
          (request_front-AllFit h ver type) large refl)
    ∙ request_header_of-named h ver type (2 ^ 31 - 1)

-- A request with named fields and less than 2^64 bytes of data is read back from its text.
pub request_from_string-to_string :
    (version : ProtocolVersion) (service : ServiceType) (content : Bytes)
    → ProtocolVersionNamed version
    → ServiceTypeNamed service
    → length content < 2 ^ 64
    → request_from_string (request_to_string (make_request version service content))
      ≡ returned (make_request version service content)
unfolding request_from_string request_to_string
request_from_string-to_string version service content ver type small =
    let h : RequestHeader = (make_request version service content).header in
    ap (λ s. read_lined (int ∷ int ∷ size_t ∷ []) s >>= request_of)
      (request_header_line h ver type size_t content)
    ∙ ap (λ m. m >>= request_of)
        (read_lined-fields_line (request_front h ver type ++ (size_t, length content) ∷ []) content
          (
            protocol_version.to_int-Fits version ver,
            (service_type.to_int-Fits service type, (small, tt)),
          ))
    ∙ rw (
      beq_refl (length content),
      protocol_version.of_int-to_int version ver,
      service_type.of_int-to_int service type,
    )

module _ (h : ResponseHeader) (ver : ProtocolVersionNamed h.version)
    (type : ServiceTypeNamed h.service) (result : StatusNamed h.result) where
  abbrev pub response_front : List (Width × ℕ)
  response_front =
      (int, protocol_version.to_int h.version)
      ∷ (int, service_type.to_int h.service)
      ∷ (int, status.to_int h.result)
      ∷ []

  response_front-AllFit : AllFit response_front
  response_front-AllFit = (
    protocol_version.to_int-Fits h.version ver,
    (service_type.to_int-Fits h.service type, (status.to_int-Fits h.result result, tt)),
  )

  response_AllFit :
      (w : Width) → Fits w h.data_size → AllFit (response_front ++ (w, h.data_size) ∷ [])
  response_AllFit w small = (
    protocol_version.to_int-Fits h.version ver,
    (service_type.to_int-Fits h.service type, (status.to_int-Fits h.result result, (small, tt))),
  )

  pub response_header_line :
      (w : Width) (content : Bytes)
      → response_header_to_string h ++ content
        ≡ fields_line (response_front ++ (w, h.data_size) ∷ []) ++ newline ∷ content
  unfolding response_header_to_string
  response_header_line w content =
      rw
        (
          int_to_string-Fits (protocol_version.to_int h.version)
              (protocol_version.to_int-Fits h.version ver),
          int_to_string-Fits (service_type.to_int h.service)
              (service_type.to_int-Fits h.service type),
          int_to_string-Fits (status.to_int h.result) (status.to_int-Fits h.result result),
        )
        (simp append_assoc)

-- The header of a response with named fields and less than 2^64 bytes of data is read back, whatever
-- stands behind it.
pub response_header_from_string-to_string :
    (h : ResponseHeader)
    → ProtocolVersionNamed h.version
    → ServiceTypeNamed h.service
    → StatusNamed h.result
    → h.data_size < 2 ^ 64
    → (rest : Bytes)
    → response_header_from_string (response_header_to_string h ++ rest) ≡ returned h
unfolding response_header_from_string
response_header_from_string-to_string h ver type result small rest =
    let fs : List (Width × ℕ) = response_front h ver type result ++ (size_t, h.data_size) ∷ [] in
    ap (λ s. response_header_of (extract_all (widths fs) (some (split_line s).0)))
      (response_header_line h ver type result size_t rest)
    ∙ ap (λ (p : Bytes × Option Bytes). response_header_of (extract_all (widths fs) (some p.0)))
        (split_line-fields_line fs rest)
    ∙ ap response_header_of
        (extract_all-fields_line fs (response_AllFit h ver type result size_t small))
    ∙ rw (
      protocol_version.of_int-to_int h.version ver,
      service_type.of_int-to_int h.service type,
      status.of_int-to_int h.result result,
    )

module _ (version : ProtocolVersion) (service : ServiceType) (result : Status) (content : Bytes)
    (ver : ProtocolVersionNamed version) (type : ServiceTypeNamed service)
    (named : StatusNamed result) where
  abbrev response : Response
  response = make_response version service result content

  -- A response with named fields and less than 2^31 bytes of data is read back from its text.
  pub response_from_string-to_string :
      length content < 2 ^ 31
      → response_from_string (response_to_string response) ≡ returned response
  unfolding response_from_string response_to_string
  response_from_string-to_string small =
      ap (λ s. read_lined (int ∷ int ∷ int ∷ int ∷ []) s >>= response_of)
        (response_header_line response.header ver type named int content)
      ∙ ap (λ m. m >>= response_of)
          (read_lined-fields_line
            (response_front response.header ver type named ++ (int, length content) ∷ []) content
            (response_AllFit response.header ver type named int small))
      ∙ rw (
        to_size-small (length content) small,
        beq_refl (length content),
        protocol_version.of_int-to_int version ver,
        service_type.of_int-to_int service type,
        status.of_int-to_int result named,
      )

  -- A response with named fields and 2^31 bytes of data or more is refused: the size of its data does
  -- not match.
  pub response_from_string-too_large :
      2 ^ 31 ≤ length content
      → response_from_string (response_to_string response) ≡ thrown data_size_mismatch
  unfolding response_from_string response_to_string
  response_from_string-too_large large =
      ap (λ s. read_lined (int ∷ int ∷ int ∷ int ∷ []) s >>= response_of)
        (response_header_line response.header ver type named int content)
      ∙ ap (λ m. m >>= response_of)
          (read_lined-too_large (response_front response.header ver type named) (length content)
            content (response_front-AllFit response.header ver type named) large)
      ∙ rw (not_largest (length content) large)
