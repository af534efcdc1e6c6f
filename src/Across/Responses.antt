-- ===== src/Across/Responses.antt =====
-- An error response in the three SDKs.
use ztxbas.Base.{
  ℕ, ◌^◌, ◌≤◌, ◌≡◌, ◌≢◌, refl, ap, sym, subst, ◌∙◌, [], ◌∷◌, Option, none, some, if◌then◌else◌,
  arith,
}
use ztxbas.Base.Result.{Outcome, done, fault}
use ztxbas.Base.Text.{Text, Bytes, codes, is_empty, is_empty_iff, same}
use ztxbas.Go.Strings.{trim_space}
use ztxbas.Go.Json.{Json, str, obj, Members, end, member, set_struct, set_text}
use ztxbas.Go.Http.{Response, read_all}
use ztxbas.Errors.{new_api_error}
use ztxbas.Runtime.{Env}
use ztxbas.Client.{Envelope, envelope_fields, envelope_of, decode_err, error_message}
use ztxbas.Objects.{get_member}
use ztxbas.Node.Failures as NodeFailures
use ztxbas.Node.Responses as Node
use ztxbas.Node.Responses.{Reply, Settled, type_error}
use ztxbas.Python.Failures as PythonFailures
use ztxbas.Python.Responses as Python
use ztxbas.Python.Responses.{Codec, Received}

-- What an error response says: a code, or none, and a message.
pub record Report : Type 0 where
  pub code : Option Text
  pub message : Text

abbrev with_error : Option Text → Members → Members
with_error none ms = ms
with_error (some t) ms = member (codes "error") (str t) ms

abbrev pub report_document : Report → Json
report_document r = obj (with_error r.code (member (codes "message") (str r.message) end))

abbrev pub node_envelope : Report → Node.Envelope
node_envelope r = record { error = r.code; message = some r.message }

-- One function on what was parsed, where it was.
abbrev pub parsed_as {ℓ} : {A : Type ℓ} → (Report → A) → Outcome Report → Outcome A
parsed_as f (done r) = done (f r)
parsed_as f (fault m) = fault m

-- The same response in the three SDKs: its status, its body of at most 64 KiB, and what that is.
pub record IsSame (env : Env) (codec : Codec) {A : Type 0} (said : Outcome Report) (resp : Response)
    (reply : Reply A) : Type 0 where
  pub is_error : 400 ≤ resp.status
  pub whole : (read_all (2 ^ 16) resp).0 ≡ resp.body
  pub go_reads : env.parse_json resp.body ≡ parsed_as report_document said
  pub python_reads : codec.loads resp.body ≡ parsed_as report_document said
  pub node_reads : reply.envelope ≡ parsed_as node_envelope said
  pub node_status : reply.status ≡ resp.status

-- A message is not empty.
abbrev pub HasMessage : Outcome Report → Type 0
HasMessage (done r) = r.message ≢ []
HasMessage (fault m) = Unit

envelope-report :
    (code : Option Text) (message : Text)
    → envelope_of (done (report_document (record { code = code; message = message })))
      ≡ record { error = Node.or_empty code; message = message }
unfolding set_struct envelope_fields set_text same
envelope-report none message = refl
envelope-report (some t) message = refl

or_text_first : (m other : Text) → m ≢ [] → Node.or_text m other ≡ m
or_text_first [] other n = absurd (n refl)
or_text_first (c ∷ m) other n = refl

node_failed :
    {A : Type 0} (reply : Reply A)
    → 400 ≤ reply.status
    → Node.receive reply ≡ Node.failure reply reply.envelope
unfolding Node.receive
node_failed reply le = ground arith

module _ (env : Env) (codec : Codec) {A : Type 0} where
  -- A report reaches the caller of each SDK, with the status. Of another body the Go SDK and the Python
  -- SDK make a message, and the Node SDK throws a `TypeError`.
  abbrev pub Reported : Outcome Report → Response → Reply A → Type 0
  Reported (done r) resp reply =
      (decode_err env resp ≡ new_api_error resp.status (Node.or_empty r.code) r.message)
      × (Node.receive reply
          ≡ Node.api
              (NodeFailures.api_error_from_response resp.status (Node.or_empty r.code) r.message))
      × (Python.receive codec resp.status resp.body
          ≡ Python.api
              (PythonFailures.api_error_from_response resp.status (Node.or_empty r.code) r.message))
  Reported (fault m) resp reply =
      (decode_err env resp
        ≡ new_api_error resp.status [] (
            if is_empty (trim_space resp.body)
            then env.status_text resp.status
            else trim_space resp.body))
      × (Node.receive reply ≡ type_error)
      × (Python.receive codec resp.status resp.body
          ≡ Python.api (
              PythonFailures.api_error_from_response resp.status []
                (Python.or_status codec (codec.decode resp.body) resp.status)))

module _ (env : Env) (codec : Codec) where
  python_failed :
      (status : ℕ) (raw : Bytes)
      → 400 ≤ status
      → Python.receive codec status raw ≡ Python.failure codec status raw (codec.loads raw)
  unfolding Python.receive
  python_failed status raw le = ground arith

  or_status_first : (m : Text) (status : ℕ) → m ≢ [] → Python.or_status codec m status ≡ m
  or_status_first [] status n = absurd (n refl)
  or_status_first (c ∷ m) status n = refl

  python_code :
      (code : Option Text) (m : Text)
      → Python.text_member codec
          (get_member (codes "error") (with_error code (member (codes "message") (str m) end)))
        ≡ Node.or_empty code
  unfolding get_member same
  python_code none m = refl
  python_code (some t) m = refl

  python_message :
      (code : Option Text) (m : Text)
      → Python.text_member codec
          (get_member (codes "message") (with_error code (member (codes "message") (str m) end)))
        ≡ m
  unfolding get_member same
  python_message none m = refl
  python_message (some t) m = refl

  go_report :
      (resp : Response) (o : Outcome Json)
      → (read_all (2 ^ 16) resp).0 ≡ resp.body
      → env.parse_json resp.body ≡ o
      → decode_err env resp
        ≡ new_api_error resp.status
            (envelope_of o).error
            (error_message env (envelope_of o) resp.body resp.status)
  unfolding decode_err
  go_report resp o whole e = rw (whole, e) refl

  own_message :
      (e : Envelope) (body : Bytes) (status : ℕ)
      → e.message ≢ []
      → error_message env e body status ≡ e.message
  unfolding error_message
  own_message e body status n = ground (arith, is_empty_iff e.message)

-- For an error response whose body is a JSON object with a nonempty message and a code or none,
-- the three SDKs each make the error of the response's status with this code and this message;
-- for one whose body is not JSON, the Go SDK makes an error with the trimmed body or else the
-- text of the status for its message, the Python SDK one with the decoded body or else the number
-- of the status, and the Node SDK throws a `TypeError`: where the body is of at most 64 KiB and
-- read without error, and its members are texts.
pub error_responses-Reported :
    (env : Env) (codec : Codec) {A : Type 0} (said : Outcome Report) (resp : Response)
    (reply : Reply A)
    → IsSame env codec said resp reply
    → HasMessage said
    → Reported env codec said resp reply
unfolding is_empty trim_space
error_responses-Reported env codec (done r) resp reply same_body n = (
  go_report env codec resp (done (report_document r)) same_body.whole same_body.go_reads
      ∙ ap (λ e. new_api_error resp.status e.error (error_message env e resp.body resp.status))
          (envelope-report r.code r.message)
      ∙ ap (new_api_error resp.status (Node.or_empty r.code)) (
          own_message env codec (record { error = Node.or_empty r.code; message = r.message })
            resp.body resp.status n),
  node_failed reply (subst (λ s. 400 ≤ s) (sym same_body.node_status) same_body.is_error)
      ∙ ap (Node.failure reply) same_body.node_reads
      ∙ rw (same_body.node_status, or_text_first r.message reply.status_text n) refl,
  python_failed env codec resp.status resp.body same_body.is_error
      ∙ ap (Python.failure codec resp.status resp.body) same_body.python_reads
      ∙ rw
          (
            python_code env codec r.code r.message,
            python_message env codec r.code r.message,
            or_status_first env codec r.message resp.status n,
          )
          refl,
)
error_responses-Reported env codec (fault m) resp reply same_body n = (
  go_report env codec resp (fault m) same_body.whole same_body.go_reads
      ∙ unfold error_message in refl,
  node_failed reply (subst (λ s. 400 ≤ s) (sym same_body.node_status) same_body.is_error)
      ∙ ap (Node.failure reply) same_body.node_reads,
  python_failed env codec resp.status resp.body same_body.is_error
      ∙ ap (Python.failure codec resp.status resp.body) same_body.python_reads,
)
