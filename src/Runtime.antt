-- ===== src/Runtime.antt =====
-- What the SDK runs on and does not implement: clock, random source, network, context, and the
-- library's text formats and cryptography, as one record of functions. What varies in a run is a
-- function of the number of effects made before: any run is one such record.
use ztxbas.Base.{◌≡◌, ◌⊎◌, inl, inr, refl, ℕ, ◌+◌, Bool, List, [], ◌∷◌, ◌++◌, Option}
use ztxbas.Base.Int.{ℤ}
use ztxbas.Base.Result.{Outcome, done, fault}
use ztxbas.Base.Text.{Text, Bytes}
use ztxbas.Go.Url.{Url}
use ztxbas.Go.Json.{Json}
use ztxbas.Go.Http.{HttpClient, Request, Response}
use ztxbas.Errors.{Result, ok, err, foreign}

-- A reading of the clock: Unix seconds, and the monotonic clock in nanoseconds.
pub record Instant : Type 0 where
  pub unix : ℤ
  pub mono : ℕ

pub record PublicKey : Type 0 where
  pub x : ℕ
  pub y : ℕ

-- The timer of a poll: when its ticker started, the gap, how many ticks were received, and the
-- deadline of its context.
pub record Timer : Type 0 where
  pub started : ℕ
  pub interval : ℕ
  pub received : ℕ
  pub deadline : ℕ

-- What a `select` over the context and the ticker receives.
pub data Wake : Type 0 where
  tick finished : Wake

pub Wake-cases : (k : Wake) → (k ≡ tick) ⊎ (k ≡ finished)
Wake-cases tick = inl refl
Wake-cases finished = inr refl

pub record Env : Type 0 where
  -- by the number of the effect
  pub now : ℕ → Instant
  pub random : ℕ → ℕ → Outcome Bytes
  pub exchange : ℕ → HttpClient → Request → Outcome Response
  pub select : ℕ → Timer → Wake
  pub context_error : ℕ → Option Text
  -- `url.Parse`; `json.Unmarshal` and `Decoder.Decode` up to the tree, the latter with the error
  -- that ends its input; `json.Marshal`
  pub parse_url : Text → Outcome Url
  pub parse_json : Bytes → Outcome Json
  pub parse_first : Bytes → Option Text → Outcome Json
  pub render_json : Json → Outcome Bytes
  -- the key comes first
  pub hmac_sha256 : Text → Bytes → Bytes
  pub sha256 : Bytes → Bytes
  pub ecdsa_verify : PublicKey → Bytes → ℕ → ℕ → Bool
  -- `http.StatusText`, and `%q` of `fmt`
  pub status_text : ℕ → Text
  pub quote : Text → Text

-- How many effects were made, and the requests that were handed to an `http.Client`, in order.
pub record World : Type 0 where
  pub step : ℕ
  pub sent : List Request

-- An action on an object, which may fail. What it changed before a failure stays changed.
abbrev pub Exec {ℓ} : Type ℓ → Type ℓ → Type ℓ
Exec S A = S → Result A × S

-- A fault of the library, as an error of this program.
abbrev pub checked {ℓ} : {A : Type ℓ} → Outcome A → Result A
checked (done a) = ok a
checked (fault m) = err (foreign m)

abbrev pub after : World → World
after w = record w { step = w.step + 1 }

module _ (env : Env) where
  -- `time.Now`
  unfoldable pub time_now : World → Instant × World
  time_now w = (env.now w.step, after w)

  -- `rand.Read` into `n` bytes
  unfoldable pub rand_read : ℕ → Exec World Bytes
  rand_read n w = (checked (env.random w.step n), after w)

  -- `(*http.Client).Do`
  unfoldable pub http_do : HttpClient → Request → Exec World Response
  http_do hc r w =
      (checked (env.exchange w.step hc r), record { step = w.step + 1; sent = w.sent ++ r ∷ [] })
