-- ===== src/Llm/Dispatcher/Outcomes.antt =====
-- dispatcher.go: what a dispatch tells the breaker, and what it returns.
use pangreksa_aigateway.Prelude.{
  ℕ, ◌+◌, ◌<◌, ◌≡◌, refl, ap, ◌∙◌, true, false, List, [], ◌∷◌, ◌++◌, if◌then◌else◌, some, Result,
  ok, err, arith, inl, inr, Bool-cases, Option-cases, Result-cases,
}
use pangreksa_aigateway.Prelude.Texts.{Text, codes}
use pangreksa_aigateway.Prelude.Dict.{lookup}
use pangreksa_aigateway.Model.Format.{Format}
use pangreksa_aigateway.Model.Inquiry.{InquiryRequest}
use pangreksa_aigateway.Llm.Breaker.{
  opened, allow, Call, allows, succeeds, fails, step, run, half_open_delay,
}
use pangreksa_aigateway.Llm.Breaker.Views.{state_of}
use pangreksa_aigateway.Llm.Breaker.Probe.{opened_waits}
use pangreksa_aigateway.Llm.Dispatcher.{
  ProviderConfig, Dispatcher, HttpReply, not_built, failed, broken_off, responded, Surroundings,
  request_of, build_body, read_reply, send, dispatch,
}

-- The calls of the breaker that one dispatch makes.
abbrev pub outcome_calls : ℕ → Text → Result Text → List Call
outcome_calls now p (ok body) = succeeds p ∷ []
outcome_calls now p (err e) = fails now p ∷ []

ok-read_reply :
    (fmt : Format) (reply : HttpReply) (body : Text)
    → read_reply fmt reply ≡ ok body
    → (status : ℕ) × (reply ≡ responded status body) × (status < 400)
unfolding read_reply
ok-read_reply fmt (not_built e) body h = cc
ok-read_reply fmt (failed e) body h = cc
ok-read_reply fmt (broken_off e) body h = cc
ok-read_reply fmt (responded status text) body h = (status, ground arith, ground arith)

module _ {F : Type 0} (fmt : Format) where
  -- A dispatch changes the dispatcher by calls of its breaker alone: it asks for leave, and then, if leave
  -- is given, records one outcome, a success exactly if it returns a response; without leave it
  -- records none.
  pub cb-dispatch :
      (asked ended : ℕ) (io : Surroundings F) (d : Dispatcher) (req : InquiryRequest F)
      → (dispatch fmt asked ended io d req).1 ≡ record d {
        cb = run d.cb (
            allows asked req.provider
            ∷ (if (allow asked req.provider d.cb).0
                then outcome_calls ended req.provider (dispatch fmt asked ended io d req).0
                else []));
      }
  unfolding dispatch run step
  cb-dispatch asked ended io d req = elim (Bool-cases (allow asked req.provider d.cb).0) [
    | inr refused ↦ rw refused
    | inl given ↦ elim (Option-cases (lookup req.provider d.providers)) [
      | inl unknown ↦ rw (given, unknown)
      | inr (pc, known) ↦ elim (Result-cases (send fmt io pc req)) [
        | inl (body, sent) ↦ rw (given, known, sent)
        | inr (e, unsent) ↦ rw (given, known, unsent)
      ]
    ]
  ]

  -- What has to hold for a request to be answered by its provider.
  pub record Answers (asked : ℕ) (io : Surroundings F) (d : Dispatcher) (req : InquiryRequest F)
      (body : Text) : Type 0 where
    pub leave : (allow asked req.provider d.cb).0 ≡ true
    pub pc : ProviderConfig
    pub known : lookup req.provider d.providers ≡ some pc
    pub sent : Text
    pub built : build_body io req ≡ ok sent
    pub status : ℕ
    pub replied : io.server (request_of pc req sent) ≡ responded status body
    pub good : status < 400

  answered_by :
      (asked : ℕ) (io : Surroundings F) (d : Dispatcher) (req : InquiryRequest F) (body : Text)
      → (allow asked req.provider d.cb).0 ≡ true
      → (pc : ProviderConfig) → lookup req.provider d.providers ≡ some pc
      → send fmt io pc req ≡ ok body
      → Answers asked io d req body
  unfolding send
  answered_by asked io d req body leave pc known sent = elim (Result-cases (build_body io req)) [
    | inr (e, unbuilt) ↦ ground (arith, unbuilt)
    | inl (text, built) ↦
        let (status, replied, good) =
          ok-read_reply fmt (io.server (request_of pc req text)) body (ground (arith, built)) in
        record {
          leave = leave;
          pc = pc;
          known = known;
          sent = text;
          built = built;
          status = status;
          replied = replied;
          good = good;
        }
  ]

  -- If a dispatch returns a response, then the breaker gave leave, the provider is configured, the
  -- request was encoded, and the response is the body of the provider's reply to this request with
  -- a status below 400.
  pub dispatch-Answers :
      (asked ended : ℕ) (io : Surroundings F) (d : Dispatcher) (req : InquiryRequest F)
      (body : Text)
      → (dispatch fmt asked ended io d req).0 ≡ ok body
      → Answers asked io d req body
  unfolding dispatch
  dispatch-Answers asked ended io d req body h =
      elim (Bool-cases (allow asked req.provider d.cb).0) [
        | inr refused ↦ ground (arith, refused)
        | inl leave ↦ elim (Option-cases (lookup req.provider d.providers)) [
          | inl unknown ↦ ground (arith, leave, unknown)
          | inr (pc, known) ↦ elim (Result-cases (send fmt io pc req)) [
            | inr (e, unsent) ↦ ground (arith, leave, known, unsent)
            | inl (text, sent) ↦
                let same : text ≡ body = ground (arith, leave, known, sent) in
                answered_by asked io d req body leave pc known (sent ∙ ap ok same)
          ]
        ]
      ]

  -- Less than thirty seconds after a provider's breaker opened, a dispatch to it fails with the same
  -- error whatever the configuration and the provider's server are, and leaves the breaker's state
  -- of the provider as it was.
  pub dispatch_refused :
      (asked ended : ℕ) (io : Surroundings F) (d : Dispatcher) (req : InquiryRequest F)
      → (state_of d.cb req.provider).state ≡ opened
      → asked < (state_of d.cb req.provider).opened_at + half_open_delay
      → ((dispatch fmt asked ended io d req).0
          ≡ err (
              codes "dispatcher.Dispatch: provider="
              ++ (fmt.quote req.provider ++ codes ": circuit breaker open")))
        × (state_of (dispatch fmt asked ended io d req).1.cb req.provider
            ≡ state_of d.cb req.provider)
  unfolding dispatch
  dispatch_refused asked ended io d req o early =
      let (when, after) = opened_waits d.cb req.provider asked o in
      let refused : (allow asked req.provider d.cb).0 ≡ false =
        elim (Bool-cases (allow asked req.provider d.cb).0) [
          | inr e ↦ e
          | inl e ↦ absurd (omega (arith, when.0 e))
        ] in
      rw refused (refl, (rw refused at after))
