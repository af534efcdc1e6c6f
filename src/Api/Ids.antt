-- ===== src/Api/Ids.antt =====
-- The ids that sdk-go/challenges.go and sdk-go/origins.go put into paths.
use mathlib.Core.List.{append_cancel_left, append-nil}
use ztxbas.Base.{◌≡◌, ◌↔◌, refl, sym, ap, subst, ◌∙◌, false, inl, inr, [], ◌∷◌, ◌++◌, All}
use ztxbas.Base.Text.{Text, IsByte, codes}
use ztxbas.Go.Url.{path_escape, escapes_in_segment}
use ztxbas.Go.Url.Laws.{path_escape_iff}
use ztxbas.Go.Http.{Request}
use ztxbas.Runtime.{Env, World}
use ztxbas.Client.{Client}
use ztxbas.Client.Paths.{IsBase}
use ztxbas.Client.Requests.{IsCall}
use ztxbas.Api.{Operation, origin_delete, challenge_status, method_of, path_of, body_of, id_of, run}
use ztxbas.Api.Calls.{run-OneCall}

-- Where the id stands in the operation's path.
abbrev pub prefix_of : Operation → Text
prefix_of (origin_delete id) = codes "/v1/origins/"
prefix_of op = codes "/v1/auth/status/"

-- The two operations whose path has an id.
abbrev pub HasId : Operation → Type 0
HasId (origin_delete id) = Unit
HasId (challenge_status id) = Unit
HasId op = ⊥

path_of_id : (op : Operation) → HasId op → path_of op ≡ prefix_of op ++ path_escape (id_of op)
path_of_id (origin_delete id) h = refl
path_of_id (challenge_status id) h = refl
path_of_id op h = absurd h

cons_eq {ℓ} : {A : Type ℓ} (a b : A) → a ∷ [] ≡ b ∷ [] → a ≡ b
cons_eq a b e = cc

cons-ne-nil {ℓ} : {A : Type ℓ} (a : A) → a ∷ [] ≡ [] → ⊥
cons-ne-nil a e = cc

-- The one request that such an operation has sent is a call of its path.
IsCall-of :
    (env : Env) (c : Client) (op : Operation) (w : World) (r : Request)
    → IsBase c.base_url
    → All IsByte (id_of op)
    → (run env c op w).sent ≡ w.sent ++ r ∷ []
    → IsCall env c (method_of op) (path_of op) (body_of op) r
IsCall-of env c op w r base bytes sent = elim (run-OneCall env c op w base bytes) [
  | inl e ↦
      absurd
        (cons-ne-nil r (append_cancel_left w.sent _ _ (sym sent ∙ (e ∙ sym (append-nil w.sent)))))
  | inr (q, e, call) ↦
      subst (IsCall env c (method_of op) (path_of op) (body_of op))
        (cons_eq q r (append_cancel_left w.sent _ _ (sym e ∙ sent))) call
]

-- The request that `GetChallengeStatus` or `DeleteOrigin` sends has in its `URL.Path`, behind the
-- base path and the operation's own, the id itself exactly if no byte of the id is one that
-- `url.PathEscape` escapes: any other id reaches the server escaped; for a client whose base path
-- is empty or begins with a slash and an id made of bytes.
pub sent_id_iff :
    (env : Env) (c : Client) (op : Operation) (w : World) (r : Request)
    → HasId op
    → IsBase c.base_url
    → All IsByte (id_of op)
    → (run env c op w).sent ≡ w.sent ++ r ∷ []
    → (r.url.path ≡ c.base_url.path ++ (prefix_of op ++ id_of op))
      ↔ All (λ b. escapes_in_segment b ≡ false) (id_of op)
sent_id_iff env c op w r has base bytes sent =
    let at : r.url.path ≡ c.base_url.path ++ (prefix_of op ++ path_escape (id_of op)) =
      (IsCall-of env c op w r base bytes sent).at_path
      ∙ ap (λ p. c.base_url.path ++ p) (path_of_id op has) in
    (
      (λ e. (path_escape_iff (id_of op)).0 (
          append_cancel_left (prefix_of op) _ _
            (append_cancel_left c.base_url.path _ _ (sym at ∙ e)))),
      λ h. at ∙ ap (λ s. c.base_url.path ++ (prefix_of op ++ s)) ((path_escape_iff (id_of op)).1 h),
    )
