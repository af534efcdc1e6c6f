-- ===== src/Node/Responses.antt =====
-- `do` of sdk-node/src/client.ts from the response on. The members of an error's body are texts, as they
-- are declared.
use ztxbas.Base.{ℕ, [], ◌∷◌, Option, none, some, ◌==◌, leb, if◌then◌else◌}
use ztxbas.Base.Result.{Outcome, done, fault}
use ztxbas.Base.Text.{Text}
use ztxbas.Node.Failures.{Thrown, api_error_from_response}

pub record Envelope : Type 0 where
  pub error : Option Text
  pub message : Option Text

-- A response, and what `resp.json()` gives: as the body of an error, and as a value.
pub record Reply (A : Type 0) : Type 0 where
  pub status : ℕ
  pub status_text : Text
  pub envelope : Outcome Envelope
  pub value : Outcome A

-- How `do` is settled: with `undefined`, with a value, or with what is thrown.
pub data Settled (A : Type 0) : Type 0 where
  nothing : Settled A
  resolved : A → Settled A
  api : Thrown → Settled A
  type_error syntax_error : Settled A

-- `?? ''`
abbrev pub or_empty : Option Text → Text
or_empty none = []
or_empty (some t) = t

-- `||`
abbrev pub or_text : Text → Text → Text
or_text [] other = other
or_text (c ∷ t) other = c ∷ t

module _ {A : Type 0} where
  -- `resp.json()` has used the body, so that `resp.text()` throws.
  abbrev pub failure : Reply A → Outcome Envelope → Settled A
  failure r (fault m) = type_error
  failure r (done e) = api (
      api_error_from_response r.status (or_empty e.error)
        (or_text (or_empty e.message) r.status_text))

  abbrev pub success : Outcome A → Settled A
  success (fault m) = syntax_error
  success (done a) = resolved a

  unfoldable pub receive : Reply A → Settled A
  receive r =
      if r.status == 204
      then nothing
      else if leb 400 r.status
      then failure r r.envelope
      else success r.value
