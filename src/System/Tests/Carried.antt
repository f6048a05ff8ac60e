-- ===== src/System/Tests/Carried.antt =====
-- A request and a stream of stdiobus/client.py over a container and over the C library, at concrete inputs.
use stdiobus_python.Base.{
  ℕ, String, ◌≡◌, refl, true, false, none, some, List, [], ◌∷◌, ◌==◌, nat-Eq, string-Eq,
  if◌then◌else◌,
}
use stdiobus_python.Base.Int.{pos}
use stdiobus_python.Base.Dict
use stdiobus_python.Json
use stdiobus_python.Json.{null, obj, str, field, end}
use stdiobus_python.Types.Enums.{running, no_stats}
use stdiobus_python.Types.Protocol.{no_options}
use stdiobus_python.Client.Pending.{join}
use stdiobus_python.Client.Dispatch.{attach_text, chunk_text, content_text, get_obj}
use stdiobus_python.Client.Requests.{awaits, end_request, future_done, replies}
use stdiobus_python.Client.Bus.{Bus, effective_timeout}
use stdiobus_python.Client.Tests.{rt, idle, idle-IsValid, notes, notes_are, reply, reply_is}
use stdiobus_python.Backends.Text.{Text}
use stdiobus_python.Backends.Utf8.{decode}
use stdiobus_python.Backends.Docker
use stdiobus_python.Backends.Docker.{split_lines, has_content, connects}
use stdiobus_python.Backends.Docker.Framing.{blocks_of}
use stdiobus_python.System.Carrier.{delivered, reads_each}
use stdiobus_python.System.Exchange.{request_over, waiting}
use stdiobus_python.System.Carriers.Container.{Reading, container, delivered-container}

-- Texts that begin with "h", "l" and other letters.
abbrev to_text : Text → String
to_text [] = ""
to_text (c ∷ cs) = if c == 104 then "hel" else if c == 108 then "lo" else "ok"

abbrev reading : Reading
reading = record {
  docker = record {
    state = running;
    has_writer = true;
    has_container = true;
    message_handlers = 0 ∷ [];
    stats = no_stats;
    calls = [];
  };
  buffer = [];
  is_over = false;
}

-- Three lines in two blocks, the second line cut.
abbrev pieces : List (List ℕ × Text)
pieces =
    ((104 ∷ 10 ∷ 108 ∷ []), (104 ∷ 10 ∷ 108 ∷ []))
    ∷ ((10 ∷ 111 ∷ 10 ∷ []), (10 ∷ 111 ∷ 10 ∷ []))
    ∷ []

delivered-container_example :
    delivered (container to_text connects) reading (blocks_of pieces) ≡ "hel" ∷ "lo" ∷ "ok" ∷ []
unfolding decode split_lines has_content
delivered-container_example =
    delivered-container to_text connects pieces reading (refl, refl, refl) (refl, (refl, tt)) refl

abbrev bus : Bus Reading
bus = record {
  client = idle;
  backend = some reading;
  client_session_id = "client-1";
  agent_session_id = null;
  timeout_ms = pos 30000;
  released = [];
  loop = none;
}

request_over_example :
    let w =
      waiting rt
        (container to_text connects)
        bus
        reading
        "1"
        notes
        "ok"
        reply
        "prompt"
        none
        none
        none
        no_options in
    let c = (reads_each rt (container to_text connects) w.0 (blocks_of pieces)).client in
    (w.1 ≡ awaits 0 (pos 30000))
    × ((end_request c "1" "prompt" 0 future_done).1
        ≡ replies (obj (field "stopReason" (str "done") (field "text" (str "Hello") end))))
    × (Dict.get (end_request c "1" "prompt" 0 future_done).0.pending_requests "1" ≡ none)
unfolding decode split_lines has_content Docker.send effective_timeout Json.get Json.put chunk_text
    content_text get_obj attach_text join
request_over_example =
    request_over rt (container to_text connects) bus reading "1" notes "ok" reply "prompt" none none
      none no_options (blocks_of pieces) refl (refl, refl) idle-IsValid notes_are reply_is refl
      (delivered-container to_text connects pieces _ (refl, refl, refl) (refl, (refl, tt)) refl)
