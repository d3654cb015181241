-- ===== src/Mcp/Client/Decoded.antt =====
-- Which responses the client of internal/mcp/client.go takes for a success.
use agentic_coop_db.Prelude.{
  ℕ, ◌<◌, ◌≡◌, ◌≢◌, ◌↔◌, ◌⊎◌, inl, inr, arith, Option, [], Bytes, bytes_eq, bytes_eq_iff, take,
  Result, ok, Bool-cases, Result-cases,
}
use agentic_coop_db.Mcp.Client.{
  GatewayError, HttpRequest, HttpResponse, max_response_size, decode, do_and_decode,
}

module _ (transport : HttpRequest → Result Bytes HttpResponse) (valid_url : Bytes → Option Bytes)
    (status_text : ℕ → Bytes) (unmarshal_error : GatewayError → Bytes → GatewayError) where
  -- The body as it is read.
  abbrev pub read_body : Bytes → Bytes
  read_body body = take max_response_size body

  decode_iff :
      {A : Type 0} (unmarshal : Bytes → Result Bytes A) (zero : A) (status : ℕ) (body : Bytes)
      (a : A)
      → (decode transport valid_url status_text unmarshal_error unmarshal zero status body ≡ ok a)
        ↔ ((status < 400) × (((body ≡ []) × (a ≡ zero)) ⊎ ((body ≢ []) × (unmarshal body ≡ ok a))))
  unfolding decode
  decode_iff unmarshal zero status body a = elim (Bool-cases (bytes_eq body [])) [
    | inl e ↦ let empty = (bytes_eq_iff body []).0 e in ground arith
    | inr e ↦ elim (Result-cases (unmarshal body)) [
      | inl (x, f) ↦ ground (arith, bytes_eq_iff body [])
      | inr (x, f) ↦ ground (arith, bytes_eq_iff body [])
    ]
  ]

  -- A value is returned exactly for a response with a status below 400 whose body, cut at 10 MB, is
  -- empty, and then the zero value, or decodes to it.
  pub do_and_decode_iff :
      {A : Type 0} (unmarshal : Bytes → Result Bytes A) (zero : A) (req : HttpRequest) (a : A)
      (resp : HttpResponse) (body : Bytes)
      → transport req ≡ ok resp
      → resp.body ≡ ok body
      → (do_and_decode transport valid_url status_text unmarshal_error unmarshal zero req ≡ ok a)
        ↔ ((resp.status < 400)
            × (((read_body body ≡ []) × (a ≡ zero))
                ⊎ ((read_body body ≢ []) × (unmarshal (read_body body) ≡ ok a))))
  unfolding do_and_decode
  do_and_decode_iff unmarshal zero req a resp body sent read =
      let (to, from) = decode_iff unmarshal zero resp.status (read_body body) a in
      let same : do_and_decode transport valid_url status_text unmarshal_error unmarshal zero req
          ≡ decode transport valid_url status_text unmarshal_error unmarshal zero resp.status
              (read_body body) =
        ground arith in
      rw same (to, from)
