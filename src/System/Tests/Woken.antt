-- ===== src/System/Tests/Woken.antt =====
-- A stream of stdiobus/client.py over the C library of stdiobus/backends/native.py at concrete inputs.
use stdiobus_python.Base.{
  ℕ, zero, suc, String, ◌≡◌, refl, true, false, none, some, List, [], ◌∷◌, ◌==◌, nat-Eq, string-Eq,
  if◌then◌else◌, inl,
}
use stdiobus_python.Base.Int.{pos}
use stdiobus_python.Json
use stdiobus_python.Json.{null, obj, str, field, end}
use stdiobus_python.Types.Enums.{no_stats}
use stdiobus_python.Types.Protocol.{no_options}
use stdiobus_python.Client.Pending.{join}
use stdiobus_python.Client.Dispatch.{attach_text, chunk_text, content_text, get_obj}
use stdiobus_python.Client.Stream.{any_stream, streams, stream_chunk, stream_result}
use stdiobus_python.Client.Streaming.{pull_all}
use stdiobus_python.Client.Bus.{Bus, effective_timeout}
use stdiobus_python.Client.Tests.{rt, idle, idle-IsValid, notes, notes_are, reply, reply_is}
use stdiobus_python.Backends.Text.{Text}
use stdiobus_python.Backends.Utf8.{decode, encode}
use stdiobus_python.Backends.Native.State.{Library, Native, live, Callback, message, c_string}
use stdiobus_python.Backends.Native.Operations
use stdiobus_python.Backends.Native.Operations.{ingest}
use stdiobus_python.System.Carrier.{delivered, reads_each}
use stdiobus_python.System.Exchange.{stream_over, opened, generator}
use stdiobus_python.System.Carriers.Embedded.{Wake, by_poll, by_turn, embedded}
use stdiobus_python.System.Carriers.Wakes.{delivered-embedded}

-- Texts that begin with "h", "l" and other letters.
abbrev to_text : Text → String
to_text [] = ""
to_text (c ∷ cs) = if c == 104 then "hel" else if c == 108 then "lo" else "ok"

abbrev of_text : String → Text
of_text m = []

-- A library whose handle counts its steps; the first says two things, the second one.
abbrev said : ℕ → List Callback
said zero = message (104 ∷ 0 ∷ []) ∷ message (108 ∷ 0 ∷ []) ∷ []
said (suc n) = message (111 ∷ 0 ∷ []) ∷ []

abbrev counting : Library ℕ
counting = record {
  create = λ s l. some 0;
  start = λ h. (h, pos 0);
  get_poll_fd = λ h. pos 5;
  step = λ h t. (suc h, said h);
  stop = λ h t. (h, pos 0);
  get_state = λ h. 2;
  ingest = λ h m. (h, pos 0);
  get_stats = λ h. no_stats;
  worker_count = λ h. pos 1;
  client_count = λ h. pos 0;
}

abbrev started : Native ℕ
started = record {
  config_path = some "c.json";
  config_json = none;
  listen_mode = "none";
  tcp_host = "127.0.0.1";
  tcp_port = pos 0;
  unix_path = "";
  bus = live 0;
  message_handlers = 0 ∷ [];
  stats = no_stats;
  loop = some 1;
  poll_fd = some 5;
  has_timer = false;
  thread = some 1;
  is_stopping = false;
  is_stepping = false;
  strings = [];
  reader = some 5;
  timers = 0;
  soon = 0;
  calls = [];
  log = [];
}

abbrev wakes : List Wake
wakes = by_poll ∷ by_turn ∷ by_poll ∷ []

delivered-embedded_example :
    delivered (embedded counting 1 1 5 true to_text of_text) started wakes
    ≡ "hel" ∷ "lo" ∷ "ok" ∷ []
unfolding decode c_string
delivered-embedded_example =
    delivered-embedded counting 1 1 5 true to_text of_text wakes started 0 0
      (refl, refl, refl, refl, refl, refl) (inl refl)

abbrev bus : Bus (Native ℕ)
bus = record {
  client = idle;
  backend = some started;
  client_session_id = "client-1";
  agent_session_id = null;
  timeout_ms = pos 30000;
  released = [];
  loop = none;
}

stream_over_example :
    let carrier = embedded counting 1 1 5 true to_text of_text in
    let o =
      opened rt carrier bus started "1" notes "ok" reply "prompt" none none none no_options 0 in
    let g =
      generator rt carrier bus started "1" notes "ok" reply "prompt" none none none no_options 0 in
    (o.1 ≡ streams g)
    × (pull_all (reads_each rt carrier o.0 (by_turn ∷ by_poll ∷ [])).client g (5 ∷ 6 ∷ 7 ∷ [])
        ≡ stream_chunk "Hel"
          ∷ stream_chunk "lo"
          ∷ stream_result (obj (field "stopReason" (str "done") (field "text" (str "Hello") end)))
          ∷ [])
unfolding any_stream decode encode c_string ingest Operations.send effective_timeout Json.get
    Json.put chunk_text content_text get_obj attach_text join
stream_over_example =
    stream_over rt (embedded counting 1 1 5 true to_text of_text) bus started "1" notes "ok" reply
      "prompt" none none none no_options 0 (by_turn ∷ by_poll ∷ []) (5 ∷ 6 ∷ 7 ∷ []) refl
      (0, refl, refl, refl, (λ b. refl), (λ m. ([], refl))) idle-IsValid refl notes_are reply_is
      refl
      (delivered-embedded counting 1 1 5 true to_text of_text (by_turn ∷ by_poll ∷ [])
        (Operations.send counting started 1 []).0 0 1 (refl, refl, refl, refl, refl, refl)
        (inl refl))
      refl
