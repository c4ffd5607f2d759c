-- ===== src/Service/Logs/Delivered.antt =====
-- client.rs and server.rs: the log lines from the server to the callback of the client.
use stelliberty_m.Base.{
  ℕ, suc, ◌≤◌, ◌<◌, zero, ◌≡◌, refl, ◌∙◌, ◌^◌, ◌%◌, String, Bool, true, false, List, [], ◌∷◌, ◌++◌,
  All, none, some, length, arith,
}
use stelliberty_m.Ipc.Stream.{Bytes, take_exact}
use stelliberty_m.Service.Protocol.{IpcCommand, stream_logs, IpcResponse, success, log_stream}
use stelliberty_m.Service.Wire.{
  IpcResult, ok, err, Codec, to_le_bytes, frame, read_bytes, Received, line, broken, lagged, closed,
  before, take, push_broken, push_line, push_lines, send, after_start, handle_log_stream,
  read_command, served, handle_client, in_time, written,
}
use stelliberty_m.Service.Wire.Exchange.{
  link_to, read_message-frame, take_exact-append, length_of, limit-fits,
}
use stelliberty_m.Service.Logs.{
  Streamed, finished, went_on, receive_logs, start, started, on_start, subscribe,
}

-- The lines in front of the end; those that were missed are not there.
abbrev pub lines_of : Received → List String
lines_of (line l rest) = l ∷ lines_of rest
lines_of (broken l n) = []
lines_of (lagged n rest) = lines_of rest
lines_of closed = []

-- A write that breaks does so within the four bytes of the length.
abbrev pub BreaksEarly : Received → Type 0
BreaksEarly (line l rest) = BreaksEarly rest
BreaksEarly (broken l n) = n < 4
BreaksEarly (lagged n rest) = BreaksEarly rest
BreaksEarly closed = Unit

-- A round for each line, and one more at least.
abbrev pub rounds : List String → ℕ → ℕ
rounds [] extra = suc extra
rounds (l ∷ ls) extra = suc (rounds ls extra)

-- The JSON of a response is read back, and fits one message of the log.
pub record IsWritten (codec : Codec) (r : IpcResponse) : Type 0 where
  pub json : Bytes
  pub to_json : codec.response_to_json r ≡ ok json
  pub from_json : codec.response_from_json json ≡ ok r
  pub fits : length json ≤ 1048576

read_frame :
    (json rest : Bytes)
    → take_exact 4 (frame json ++ rest) ≡ some (to_le_bytes (length json % 2 ^ 32), json ++ rest)
unfolding frame to_le_bytes take_exact
read_frame json rest = refl

module _ {S : Type 0} (codec : Codec) (callback : String → S → Bool × S) where
  -- What the callback makes of the lines, until it asks for no more.
  abbrev go_on : (S → S) → Bool × S → S
  go_on rest (true, s) = rest s
  go_on rest (false, s) = s

  abbrev pub deliver : List String → S → S
  deliver [] s = s
  deliver (l ∷ ls) s = go_on (deliver ls) (callback l s)

  receive_logs-frame :
      (l : String) (w : IsWritten codec (log_stream l)) (rest : Bytes) (fuel : ℕ) (s : S)
      → receive_logs codec callback none (suc fuel) (frame w.json ++ rest) s
        ≡ went_on (λ b t. receive_logs codec callback none fuel b t) rest (callback l s)
  unfolding receive_logs read_bytes
  receive_logs-frame l w rest fuel s =
      rw
        (
          read_frame w.json rest,
          length_of (length w.json) (omega arith),
          limit-fits 1048576 (length w.json) w.fits,
          take_exact-append w.json rest,
          w.from_json,
        )
        refl

  nothing_left :
      (fuel : ℕ) (s : S) → receive_logs codec callback none (suc fuel) [] s ≡ finished (ok tt) s
  unfolding receive_logs take_exact
  nothing_left fuel s = refl

  -- A part of the length is the end of the stream.
  length_cut :
      (json : Bytes) (n fuel : ℕ) (s : S)
      → n < 4
      → receive_logs codec callback none (suc fuel) (take n (frame json)) s ≡ finished (ok tt) s
  unfolding receive_logs take take_exact frame to_le_bytes
  length_cut json zero fuel s h = refl
  length_cut json (suc zero) fuel s h = refl
  length_cut json (suc (suc zero)) fuel s h = refl
  length_cut json (suc (suc (suc zero))) fuel s h = refl
  length_cut json (suc (suc (suc (suc n)))) fuel s h = let no : 1 ≤ 0 = omega arith in elim no [ ]

  broken-read :
      (r : IpcResult Bytes) (n fuel : ℕ) (s : S)
      → n < 4
      → receive_logs codec callback none (suc fuel) (push_broken r n).sent s ≡ finished (ok tt) s
  unfolding push_broken
  broken-read (err e) n fuel s h = nothing_left fuel s
  broken-read (ok json) n fuel s h = length_cut json n fuel s h

  went_on-next :
      (more : Bytes → S → Streamed S) (f : S → S) (rest : Bytes) (r : Bool × S)
      → ((t : S) → more rest t ≡ finished (ok tt) (f t))
      → went_on more rest r ≡ finished (ok tt) (go_on f r)
  unfolding went_on
  went_on-next more f rest (true, t) next = next t
  went_on-next more f rest (false, t) next = refl

  receive_logs-push_lines :
      (received : Received) (extra : ℕ) (s : S)
      → BreaksEarly received
      → All (λ l. IsWritten codec (log_stream l)) (lines_of received)
      → receive_logs codec callback none
          (rounds (lines_of received) extra)
          (push_lines codec received).sent
          s
        ≡ finished (ok tt) (deliver (lines_of received) s)
  unfolding push_lines push_line before
  receive_logs-push_lines closed extra s early all = nothing_left extra s
  receive_logs-push_lines (lagged n rest) extra s early all =
      receive_logs-push_lines rest extra s early all
  receive_logs-push_lines (broken l n) extra s early all =
      broken-read (codec.response_to_json (log_stream l)) n extra s early
  receive_logs-push_lines (line l rest) extra s early (w, all) = rw (w.to_json) (
      receive_logs-frame l w (push_lines codec rest).sent (rounds (lines_of rest) extra) s
      ∙ went_on-next _ (deliver (lines_of rest)) (push_lines codec rest).sent (callback l s)
          (λ t. receive_logs-push_lines rest extra t early all))

abbrev pub welcome : IpcResponse
welcome = success (some "日志流已启用")

start-answered :
    (codec : Codec) {S : Type 0} (callback : String → S → Bool × S) (answers : Bytes → Bytes)
    (command_json rest : Bytes) (w : IsWritten codec welcome)
    → codec.command_to_json stream_logs ≡ ok command_json
    → answers (frame command_json) ≡ frame w.json ++ rest
    → start codec callback none (record {
      connected = ok tt;
      writes = none;
      answers = answers;
      length_late = false;
      data_late = false;
    })
      ≡ ok (welcome, rest)
unfolding start read_bytes in_time written
start-answered codec callback answers command_json rest w to_json back =
    let small : length w.json ≤ 10485760 = let f = w.fits in omega arith in
    rw
      (
        to_json,
        back,
        read_frame w.json rest,
        length_of (length w.json) (let f = w.fits in omega arith),
        limit-fits 10485760 (length w.json) small,
        take_exact-append w.json rest,
        w.from_json,
      )
      refl

module _ {S T : Type 0} (codec : Codec) (handler : IpcCommand → T → IpcResponse × T) (t : T)
    (callback : String → S → Bool × S) where
  handle_client-stream :
      (command_json : Bytes) (received : Received) (w : IsWritten codec welcome)
      → codec.command_from_json command_json ≡ ok stream_logs
      → length command_json ≤ 1048576
      → (handle_client codec handler none received (frame command_json) t).0.sent
        ≡ frame w.json ++ (push_lines codec received).sent
  unfolding handle_client read_command served handle_log_stream send after_start before
  handle_client-stream command_json received w from_json fits =
      rw (read_message-frame 1048576 "命令数据过大" command_json fits (omega arith), from_json, w.to_json)
        refl

  -- Where the JSON of the command, of the first response and of each line is read back and within its
  -- limit, and the link works: over a run of the server that ends, because the channel of the lines is
  -- closed or a write breaks within the length of a message, a subscription gives the callback the lines
  -- whose messages went out, in their order, until the callback asks for no more or there are none left,
  -- and ends without an error. Lines that the server missed are not among them.
  pub subscribe_lem :
      (command_json : Bytes) (received : Received) (extra : ℕ) (s : S)
      → codec.command_to_json stream_logs ≡ ok command_json
      → codec.command_from_json command_json ≡ ok stream_logs
      → length command_json ≤ 1048576
      → IsWritten codec welcome
      → BreaksEarly received
      → All (λ l. IsWritten codec (log_stream l)) (lines_of received)
      → subscribe codec callback none
          (rounds (lines_of received) extra)
          (link_to codec handler received t)
          s
        ≡ finished (ok tt) (deliver codec callback (lines_of received) s)
  unfolding subscribe started on_start
  subscribe_lem command_json received extra s to_json from_json fits w early all =
      rw
        (start-answered codec callback (link_to codec handler received t).answers command_json
          (push_lines codec received).sent w to_json
          (handle_client-stream command_json received w from_json fits))
        (receive_logs-push_lines codec callback received extra s early all)
