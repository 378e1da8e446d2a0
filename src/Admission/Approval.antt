-- ===== src/Admission/Approval.antt =====
-- Approving a certificate request.
use mathlib.Core.Option.{none-ne-some, some-injective}
use cluster_api_provider_bri.Prelude.{
  ◌≡◌, refl, sym, ap, ◌∙◌, String, Bool, true, false, ◌||◌, Option, none, some, List, [], ◌∷◌, ◌++◌,
  if◌then◌else◌, arith, Option,
}
use cluster_api_provider_bri.Api.Meta.{Error, Reply, done}
use cluster_api_provider_bri.Admission.{
  Request, approved, denied, check_csr_condition, is_approvable, approve, review, accepts,
}

check-approved : (cs : List String) → check_csr_condition approved (cs ++ (approved ∷ [])) ≡ true
unfolding check_csr_condition
check-approved [] = refl
check-approved (k ∷ cs) = ground (arith, check-approved cs)

sent_only_if :
    (decided approvable : Bool) (k sent : Request) (r : Reply)
    → (if◌then◌else◌ {A = Option Request × Reply} decided
        (none, done)
        (if approvable then (some k, r) else (none, done))).0
      ≡ some sent
    → (approvable ≡ true) × (sent ≡ k)
sent_only_if true approvable k sent r e = absurd (none-ne-some sent e)
sent_only_if false true k sent r e = (refl, sym (some-injective k sent e))
sent_only_if false false k sent r e = absurd (none-ne-some sent e)

approved-rests :
    (update : Request → Option Error) (r : Request) → review update (approve r) ≡ (none, done)
unfolding review approve
approved-rests update r = rw (check-approved r.conditions) refl

review-sent :
    (update : Request → Option Error) (r sent : Request)
    → (review update r).0 ≡ some sent
    → (is_approvable r ≡ true) × (sent ≡ approve r)
unfolding review
review-sent update r sent e =
    sent_only_if
      (check_csr_condition approved r.conditions || check_csr_condition denied r.conditions)
      (is_approvable r) (approve r) sent _ e

approvable-accepts : (r : Request) → is_approvable r ≡ true → accepts r ≡ true
unfolding is_approvable accepts
approvable-accepts r e = ground arith

-- A request that is sent to be approved is one that the filter of the events lets through, and once
-- it is approved it is not sent again.
pub approval_once :
    (update later : Request → Option Error) (r sent : Request)
    → (review update r).0 ≡ some sent
    → (accepts r ≡ true) × (review later sent ≡ (none, done))
approval_once update later r sent e =
    let found = review-sent update r sent e in
    (approvable-accepts r found.0, ap (review later) found.1 ∙ approved-rests later r)
