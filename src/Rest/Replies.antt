-- ===== src/Rest/Replies.antt =====
-- When `RestCall` of pkg/gateway/util/rest.go gives bytes.
use layer7_operator.Prelude.{
  ℕ, String, ◌≡◌, refl, ap, sym, ◌∙◌, true, ◌⊎◌, inl, inr, Bool-cases, Outcome, ok, err, panic,
  arith, from_result,
}
use layer7_operator.Prelude.Exec.{proceed-ok}
use layer7_operator.Rest.{Bytes, Request, Http, is_success, closed, read_body, rest_call}

success_code : (code : ℕ) → is_success code ≡ true → (code ≡ 200) ⊎ (code ≡ 201)
success_code code h = ground arith

abbrev value_of : (bytes : Bytes) → Outcome Bytes → Bytes
value_of bytes (ok b) = b
value_of bytes (err e) = bytes
value_of bytes panic = bytes

module _ (H : Http) where
  -- The body was read and closed.
  abbrev WasRead : H.Body → H.State → Bytes → H.State → Type 0
  WasRead body s bytes s' =
      (t : H.State) × (H.read_all body s ≡ (ok bytes, t)) × (s' ≡ H.close body t)

  was_read :
      (body : H.Body) (bytes : Bytes) (s s' : H.State)
      → read_body H body s ≡ (ok bytes, s')
      → WasRead body s bytes s'
  unfolding read_body
  was_read body bytes s s' h = by_outcome (H.read_all body s).0 (H.read_all body s).1 refl h
    where
      by_outcome :
          (r : Outcome Bytes) (t : H.State)
          → H.read_all body s ≡ (r, t)
          → closed H body (r, t) ≡ (ok bytes, s')
          → WasRead body s bytes s'
      by_outcome (ok b) t e h' =
          (t, e ∙ (λ i. (ok (value_of b (h' i).0), t)), ap (λ x. x.1) (sym h'))
      by_outcome (err x) t e h' = ground arith
      by_outcome panic t e h' = ground arith

  -- The answer that a successful call has read: its status is 200 or 201, and its body is read to the end and
  -- closed.
  abbrev pub Succeeded : Request → H.State → Bytes → H.State → Type 0
  Succeeded request s bytes s' =
      (code : ℕ) × (status : String) × (body : H.Body) × (t : H.State) × (H.send request s
        ≡ (ok (code, status, body), t))
      × ((code ≡ 200) ⊎ (code ≡ 201))
      × WasRead body t bytes s'

  -- `RestCall` gives bytes only if the request was sent as it was asked for, with its method, its content type and
  -- its user, was answered with the status 200 or 201, and the body was read without an error; these
  -- are the bytes, and the body is closed.
  pub rest_call-Succeeded :
      (method url content_type : String) (payload : Bytes) (username password : String)
      (s s' : H.State) (bytes : Bytes)
      → rest_call H method url content_type payload username password s ≡ (ok bytes, s')
      → Succeeded
          (record {
            method = method;
            url = url;
            body = payload;
            content_type = content_type;
            username = username;
            password = password;
          })
          s
          bytes
          s'
  unfolding rest_call
  rest_call-Succeeded method url content_type payload username password s s' bytes h =
      let request : Request = record {
        method = method;
        url = url;
        body = payload;
        content_type = content_type;
        username = username;
        password = password;
      } in
      let t : H.State = (H.send request s).1 in
      let (_, _, h₁) = proceed-ok (from_result (H.check_request method url)) s s' _ h in
      let ((code, status, body), e, h₂) = proceed-ok (H.send request s).0 t s' _ h₁ in
      elim (Bool-cases (is_success code)) [
        | inl good ↦ (
          code,
          status,
          body,
          t,
          (λ i. (e i, t)),
          success_code code good,
          was_read body bytes t s' (rw good at h₂),
        )
        | inr bad ↦ let raised = rw bad at h₂ in ground arith
      ]
