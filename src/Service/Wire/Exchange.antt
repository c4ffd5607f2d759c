-- ===== src/Service/Wire/Exchange.antt =====
-- client.rs and server.rs: a command and its response.
use stelliberty_m.Base.{
  ℕ, zero, suc, ◌+◌, ◌<◌, ◌≤◌, ◌≡◌, ◌≢◌, refl, sym, ap, ◌∙◌, ◌^◌, ◌%◌, String, false, [], ◌∷◌, ◌++◌,
  Option, none, some, length, ltb, arith,
}
use stelliberty_m.Ipc.Stream.{Bytes, take_exact}
use stelliberty_m.Service.Protocol.{
  IpcCommand, start_clash, stop_clash, get_status, get_version, heartbeat, get_logs, stream_logs,
  IpcResponse,
}
use stelliberty_m.Service.Wire.{
  IpcError, IpcResult, ok, err, Codec, to_le_bytes, from_le_bytes, frame, read_bytes, read_message,
  Received, send, served, answered, read_command, handle_client, Link, in_time, written,
  try_send_command, checked, attempt_from, send_command,
}

from_le_bytes-to_le_bytes : (n : ℕ) → n < 2 ^ 32 → from_le_bytes (to_le_bytes n) ≡ n
unfolding from_le_bytes to_le_bytes
from_le_bytes-to_le_bytes n h = omega arith

pub take_exact-append : (bs rest : Bytes) → take_exact (length bs) (bs ++ rest) ≡ some (bs, rest)
unfolding take_exact
take_exact-append [] rest = refl
take_exact-append (b ∷ bs) rest = rw (take_exact-append bs rest)

append-nil : (bs : Bytes) → bs ++ [] ≡ bs
append-nil [] = refl
append-nil (b ∷ bs) = ap (λ x. b ∷ x) (append-nil bs)

take_exact-all : (bs : Bytes) → take_exact (length bs) bs ≡ some (bs, [])
take_exact-all bs = ap (take_exact (length bs)) (sym (append-nil bs)) ∙ take_exact-append bs []

pub length_of : (n : ℕ) → n < 2 ^ 32 → from_le_bytes (to_le_bytes (n % 2 ^ 32)) ≡ n
unfolding from_le_bytes to_le_bytes
length_of n h = omega arith

read_bytes-length :
    (bytes : Bytes) → read_bytes 4 (frame bytes) ≡ ok (to_le_bytes (length bytes % 2 ^ 32), bytes)
unfolding read_bytes frame to_le_bytes take_exact
read_bytes-length bytes = refl

read_bytes-all : (bytes : Bytes) → read_bytes (length bytes) bytes ≡ ok (bytes, [])
unfolding read_bytes
read_bytes-all bytes = rw (take_exact-all bytes) refl

pub limit-fits : (limit n : ℕ) → n ≤ limit → ltb limit n ≡ false
limit-fits limit n h = ground arith

pub read_message-frame :
    (limit : ℕ) (too_large : String) (bytes : Bytes)
    → length bytes ≤ limit
    → limit < 2 ^ 32
    → read_message limit too_large (frame bytes) ≡ ok (bytes, [])
unfolding read_message
read_message-frame limit too_large bytes fits small =
    rw
      (
        read_bytes-length bytes,
        length_of (length bytes) (omega arith),
        limit-fits limit (length bytes) fits,
        read_bytes-all bytes,
      )
      refl

try_send_command-answered :
    (codec : Codec) (answers : Bytes → Bytes) (command : IpcCommand)
    (command_json response_json : Bytes)
    → codec.command_to_json command ≡ ok command_json
    → answers (frame command_json) ≡ frame response_json
    → length response_json ≤ 10485760
    → try_send_command codec
        (record {
          connected = ok tt;
          writes = none;
          answers = answers;
          length_late = false;
          data_late = false;
        })
        command
      ≡ codec.response_from_json response_json
unfolding try_send_command in_time written
try_send_command-answered codec answers command command_json response_json to_json back fits =
    rw
      (
        to_json,
        back,
        read_bytes-length response_json,
        length_of (length response_json) (omega arith),
        limit-fits 10485760 (length response_json) fits,
        read_bytes-all response_json,
      )
      refl

module _ {S : Type 0} (codec : Codec) (handler : IpcCommand → S → IpcResponse × S)
    (received : Received) (s : S) where
  served-command :
      (command : IpcCommand)
      → command ≢ stream_logs
      → served codec handler none received (ok command) s
        ≡ answered codec handler none received (handler command s)
  unfolding served
  served-command stream_logs other_one = elim (other_one refl) [ ]
  served-command (start_clash args) other_one = refl
  served-command stop_clash other_one = refl
  served-command get_status other_one = refl
  served-command get_version other_one = refl
  served-command heartbeat other_one = refl
  served-command (get_logs n) other_one = refl

  -- What comes back from a service that reads a command, answers it, and can write the response.
  handle_client-answers :
      (command : IpcCommand) (command_json response_json : Bytes)
      → command ≢ stream_logs
      → codec.command_from_json command_json ≡ ok command
      → codec.response_to_json (handler command s).0 ≡ ok response_json
      → length command_json ≤ 1048576
      → handle_client codec handler none received (frame command_json) s
        ≡ (record { sent = frame response_json; result = ok tt }, (handler command s).1)
  unfolding handle_client read_command answered send
  handle_client-answers command command_json response_json other_one from_json to_response fits =
      let read = read_message-frame 1048576 "命令数据过大" command_json fits (omega arith) in
      let sent = served-command command other_one in rw (read, from_json, sent, to_response) refl

  -- The link to a service in the state `s`, over which all arrives in time.
  abbrev pub link_to : Link
  link_to = record {
    connected = ok tt;
    writes = none;
    answers = λ bytes. (handle_client codec handler none received bytes s).0.sent;
    length_late = false;
    data_late = false;
  }

  -- Where the JSON of a command, and that of its response, are read back as what they were written from,
  -- and are at most 1 MiB and 10 MiB long: the client's one attempt gives exactly what the handler answers
  -- in the state of the service, whose state is then that of the handler. The command is not the one for
  -- the stream of log lines.
  pub exchange :
      (command : IpcCommand) (command_json response_json : Bytes)
      → command ≢ stream_logs
      → codec.command_to_json command ≡ ok command_json
      → codec.command_from_json command_json ≡ ok command
      → codec.response_to_json (handler command s).0 ≡ ok response_json
      → codec.response_from_json response_json ≡ ok (handler command s).0
      → length command_json ≤ 1048576
      → length response_json ≤ 10485760
      → (try_send_command codec link_to command ≡ ok (handler command s).0)
        × ((handle_client codec handler none received (frame command_json) s).1
            ≡ (handler command s).1)
  exchange command command_json response_json other_one to_json from_json to_response from_response
        fits fits_back =
      let answers =
        handle_client-answers command command_json response_json other_one from_json to_response
          fits in
      let back = ap (λ x. x.0.sent) answers in
      (
        try_send_command-answered codec link_to.answers command command_json response_json to_json
              back fits_back
            ∙ from_response,
        ap (λ x. x.1) answers,
      )

abbrev pub Fails : {A : Type 0} → IpcResult A → Type 0
Fails {A} r = (e : IpcError) × (r ≡ err e)

attempt_from-first :
    (codec : Codec) (links : ℕ → Link) (command : IpcCommand) (n i m : ℕ) (last : Option IpcError)
    (response : IpcResponse)
    → m < n
    → ((j : ℕ) → j < m → Fails (try_send_command codec (links (i + j)) command))
    → try_send_command codec (links (i + m)) command ≡ ok response
    → attempt_from codec links command n i last ≡ checked codec response
unfolding attempt_from
attempt_from-first codec links command zero i m last response less failing works =
    let no : ⊥ = omega arith in elim no [ ]
attempt_from-first codec links command (suc n) i zero last response less failing works =
    let here : i ≡ i + 0 = omega arith in
    rw (ap (λ k. try_send_command codec (links k) command) here ∙ works) refl
attempt_from-first codec links command (suc n) i (suc m) last response less failing works =
    let here : i ≡ i + 0 = omega arith in
    let (e, failed) = failing 0 (omega arith) in
    rw (ap (λ k. try_send_command codec (links k) command) here ∙ failed) (
      attempt_from-first codec links command n (suc i) m (some e) response (omega arith)
        (λ j l.
          let (e', f) = failing (suc j) (omega arith) in
          let shift : suc i + j ≡ i + suc j = omega arith in
          (e', ap (λ k. try_send_command codec (links k) command) shift ∙ f))
        (let shift : suc i + m ≡ i + suc m = omega arith in
          ap (λ k. try_send_command codec (links k) command) shift ∙ works))

-- Where the first attempts of the allowed ones fail and the next one has a response, `send_command` gives
-- that response, which is an error if it is one of the service; no later attempt is made.
pub send_command-first :
    (codec : Codec) (links : ℕ → Link) (command : IpcCommand) (max_retries m : ℕ)
    (response : IpcResponse)
    → m ≤ max_retries
    → ((j : ℕ) → j < m → Fails (try_send_command codec (links j) command))
    → try_send_command codec (links m) command ≡ ok response
    → send_command codec max_retries links command ≡ checked codec response
unfolding send_command
send_command-first codec links command max_retries m response allowed failing works =
    attempt_from-first codec links command (suc max_retries) 0 m none response (omega arith)
      (λ j l.
        let (e, f) = failing j l in
        let z : 0 + j ≡ j = omega arith in
        (e, ap (λ k. try_send_command codec (links k) command) z ∙ f))
      (let z : 0 + m ≡ m = omega arith in
        ap (λ k. try_send_command codec (links k) command) z ∙ works)
