-- ===== src/Service/Wire/Tests.antt =====
-- A command that goes to the service and back, and one that is tried twice.
use stelliberty_m.Base.{
  ℕ, zero, suc, ◌≡◌, ◌<◌, refl, sym, ◌∙◌, arith, true, false, [], ◌∷◌, none, some,
}
use stelliberty_m.Service.Manager
use stelliberty_m.Service.Manager.{unix, alive, System}
use stelliberty_m.Service.Protocol.{IpcCommand, get_version, IpcResponse, version}
use stelliberty_m.Service.Handler.{Service, handle}
use stelliberty_m.Service.Wire.{
  closed, connection_failed, ok, err, Codec, frame, handle_client, Link, try_send_command,
}
use stelliberty_m.Service.Wire.Exchange.{link_to, exchange, Fails}

abbrev system : System
system = record {
  platform = unix;
  now = 5;
  try_wait = λ pid. alive;
  kill = λ pid. none;
  exists = λ path. true;
  spawn = λ path args. some 42;
}

abbrev service : Service
service = record { manager = Manager.new; last_heartbeat = 1 }

abbrev handler : IpcCommand → Service → IpcResponse × Service
handler command s = handle (λ n. []) "1.0" system command s

-- It knows one command and one response.
abbrev codec : Codec
codec = record {
  command_to_json = λ c. ok (b'"' ∷ b'v' ∷ b'"' ∷ []);
  command_from_json = λ bytes. ok get_version;
  response_to_json = λ r. ok (b'{' ∷ b'}' ∷ []);
  response_from_json = λ bytes. ok (version "1.0");
}

version_run : ok (version "1.0") ≡ ok (handler get_version service).0
unfolding handle
version_run = refl

exchange_example :
    (try_send_command codec (link_to codec handler closed service) get_version
      ≡ ok (handler get_version service).0)
    × ((handle_client codec handler none closed (frame (b'"' ∷ b'v' ∷ b'"' ∷ [])) service).1
        ≡ (handler get_version service).1)
exchange_example =
    exchange codec handler closed service get_version (b'"' ∷ b'v' ∷ b'"' ∷ []) (b'{' ∷ b'}' ∷ [])
      (λ e. cc) refl refl refl version_run (omega arith) (omega arith)

abbrev refusing : Link
refusing = record {
  connected = err (connection_failed "refused");
  writes = none;
  answers = λ bytes. [];
  length_late = false;
  data_late = false;
}

-- The first connection is refused, and the next ones reach a service.
abbrev links : ℕ → Link
links zero = refusing
links (suc n) = link_to codec handler closed service

refused_run : (j : ℕ) → j < 1 → Fails (try_send_command codec (links j) get_version)
unfolding try_send_command
refused_run zero l = (connection_failed "refused", refl)
refused_run (suc j) l = let no : ⊥ = omega arith in elim no [ ]

answered_run : try_send_command codec (links 1) get_version ≡ ok (version "1.0")
answered_run =
    (exchange codec handler closed service get_version (b'"' ∷ b'v' ∷ b'"' ∷ []) (b'{' ∷ b'}' ∷ [])
      (λ e. cc) refl refl refl version_run (omega arith) (omega arith)).0
    ∙ sym version_run
