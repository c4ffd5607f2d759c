-- ===== src/Override/Download/Content.antt =====
-- overrides/downloader.rs: what a downloaded override is.
use stelliberty_m.Base.{
  ℕ, ◌≡◌, refl, ap, ◌∙◌, String, true, false, Result, ok, err, ◌>>=◌, >>=-eq-ok, ok-injective,
  is_empty, Bool-cases, inl, inr,
}
use stelliberty_m.Subscription.Download.{direct, system}
use stelliberty_m.Override.Download.{
  DownloadOverrideRequest, ClientSettings, Answer, Http, create_http_client, is_success, not_empty,
  read_answer, download_override, respond, handle,
}

-- The text of an answer with a status of success, which is not empty.
pub record Fetched (http : Http) (r : DownloadOverrideRequest) (content : String) : Type 0 where
  pub client : ClientSettings
  pub answer : Answer
  pub built : create_http_client http r.proxy_mode r.timeout_seconds r.mixed_port ≡ ok client
  pub sent : http.get client r.url r.user_agent ≡ ok answer
  pub status_is : is_success http answer.status ≡ true
  pub text_is : answer.text ≡ ok content
  pub full : is_empty content ≡ false

not_empty-ok :
    (http : Http) (text content : String)
    → not_empty http text ≡ ok content
    → (text ≡ content) × (is_empty content ≡ false)
unfolding not_empty
not_empty-ok http text content h = elim (Bool-cases (is_empty text)) [
  | inl e ↦ let no = rw e at h in cc
  | inr e ↦ let same : text ≡ content = ok-injective (rw e at h) in (same, rw (← same) e)
]

failed_answer : (http : Http) (e content : String) → err e ≡ ok content → ⊥
failed_answer http e content h = cc

read_answer-ok :
    (http : Http) (answer : Answer) (content : String)
    → read_answer http answer ≡ ok content
    → (is_success http answer.status ≡ true)
      × (answer.text ≡ ok content)
      × (is_empty content ≡ false)
unfolding read_answer
read_answer-ok http answer content h = elim (Bool-cases (is_success http answer.status)) [
  | inl e ↦
      let (text, text_is, full) = >>=-eq-ok answer.text (λ t. not_empty http t) (rw e at h) in
      let (same, not_nothing) = not_empty-ok http text content full in
      (e, text_is ∙ ap (λ t. ok t) same, not_nothing)
  | inr e ↦ elim (failed_answer http _ content (rw e at h)) [ ]
]

download-Fetched :
    (http : Http) (r : DownloadOverrideRequest) (content : String)
    → download_override http r.url r.proxy_mode r.user_agent r.timeout_seconds r.mixed_port
      ≡ ok content
    → Fetched http r content
unfolding download_override
download-Fetched http r content h =
    let made = create_http_client http r.proxy_mode r.timeout_seconds r.mixed_port in
    let (client, built, later) =
      >>=-eq-ok made (λ c. http.get c r.url r.user_agent >>= (λ a. read_answer http a)) h in
    let (answer, sent, read) =
      >>=-eq-ok (http.get client r.url r.user_agent) (λ a. read_answer http a) later in
    let (status_is, text_is, full) = read_answer-ok http answer content read in
    record {
      client = client;
      answer = answer;
      built = built;
      sent = sent;
      status_is = status_is;
      text_is = text_is;
      full = full;
    }

not_successful : false ≡ true → ⊥
not_successful h = cc

respond-Fetched :
    (http : Http) (r : DownloadOverrideRequest) (o : Result String)
    → download_override http r.url r.proxy_mode r.user_agent r.timeout_seconds r.mixed_port ≡ o
    → (respond http r.request_id o).is_successful ≡ true
    → Fetched http r (respond http r.request_id o).content
unfolding respond
respond-Fetched http r (ok content) e h = download-Fetched http r content e
respond-Fetched http r (err message) e h = elim (not_successful h) [ ]

-- A download that is answered as successful has the text, not empty, of an answer with a status from 200
-- to 299, to the request with the given address and agent.
pub handle-Fetched :
    (http : Http) (r : DownloadOverrideRequest)
    → (handle http r).is_successful ≡ true
    → Fetched http r (handle http r).content
unfolding handle
handle-Fetched http r h =
    respond-Fetched http r
      (download_override http r.url r.proxy_mode r.user_agent r.timeout_seconds r.mixed_port) refl h

-- A direct download is one with the proxy of the environment.
pub direct-system :
    (http : Http) (timeout_seconds mixed_port : ℕ)
    → create_http_client http direct timeout_seconds mixed_port
      ≡ create_http_client http system timeout_seconds mixed_port
unfolding create_http_client
direct-system http timeout_seconds mixed_port = refl
