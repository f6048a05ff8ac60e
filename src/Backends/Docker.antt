-- ===== src/Backends/Docker.antt =====
-- `DockerBackend` of stdiobus/backends/docker.py: its life and its read loop. Texts are lists of code
-- points here, since the loop cuts them into lines.
pub mod Framing
pub mod Interleaved
pub mod Engine
pub mod Readiness
use Prim.Native.String
use stdiobus_python.Base.{
  String, ℕ, ◌+◌, Bool, true, false, ◌&&◌, ◌||◌, Option, none, some, List, [], ◌∷◌, ◌++◌, length,
  ◌==◌, nat-Eq, leb, if◌then◌else◌,
}
use stdiobus_python.Errors.{Exception, sdk, invalid_state_class, raise_new}
use stdiobus_python.Types.Enums.{BusState, starting, running, stopped, is_running_state, BusStats}
use stdiobus_python.Backends.Subprocess.{is_created, frame}
use stdiobus_python.Backends.Text.{Text, Handled, handled_all}
use stdiobus_python.Backends.Utf8.{decode}

pub record Docker : Type 0 where
  pub state : BusState
  pub has_writer : Bool
  pub has_container : Bool
  pub message_handlers : List ℕ
  pub stats : BusStats
  pub calls : List Handled

-- How `start` goes: the pull or the start of the container raises, it starts and never becomes ready,
-- or the connection is made.
pub data Launch : Type 0 where
  launch_raises : Exception → Launch
  never_ready : Exception → Launch
  connects : Launch

abbrev pub already_started : Exception
already_started = sdk (raise_new invalid_state_class "Bus already started")

unfoldable pub launch : Docker → Launch → Docker × Option Exception
launch b (launch_raises e) = (record b { state = stopped }, some e)
launch b (never_ready e) = (record b { state = stopped; has_container = true }, some e)
launch b connects = (
  record b {
    state = running;
    has_writer = true;
    has_container = true;
    stats = record b.stats { client_connects = b.stats.client_connects + 1 };
  },
  none,
)

unfoldable pub start : Docker → Launch → Docker × Option Exception
unfolding launch
start b l =
    if is_created b.state
    then launch (record b { state = starting }) l
    else (b, some already_started)

unfoldable pub stop : Docker → Docker
stop b =
    if is_running_state b.state
    then record b {
      state = stopped;
      has_writer = false;
      has_container = false;
      stats = record b.stats { client_disconnects = b.stats.client_disconnects + 1 };
    }
    else b

unfoldable pub destroy : Docker → Docker
destroy b = record b { state = stopped; has_writer = false; has_container = false }

-- `written` tells whether the writer takes the data. `len(data)` counts characters.
unfoldable pub send : Docker → String → (written : Bool) → Docker × Bool
send b m written =
    if is_running_state b.state && b.has_writer && written
    then (
      record b {
        stats = record b.stats {
          messages_in = b.stats.messages_in + 1;
          bytes_in = b.stats.bytes_in + String.count (frame m);
        };
      },
      true,
    )
    else (b, false)

-- on_message
unfoldable pub on_message : Docker → ℕ → Docker
on_message b h = record b { message_handlers = b.message_handlers ++ h ∷ [] }

-- get_client_count
unfoldable pub client_count : Docker → ℕ
client_count b = if is_running_state b.state && b.has_writer then 1 else 0

-- str.isspace, of one code point
unfoldable pub is_space : ℕ → Bool
is_space c =
    (leb 9 c && leb c 13)
    || (leb 28 c && leb c 32)
    || c == 133
    || c == 160
    || c == 5760
    || (leb 8192 c && leb c 8202)
    || c == 8232
    || c == 8233
    || c == 8239
    || c == 8287
    || c == 12288

-- if line.strip():
unfoldable pub has_content : Text → Bool
unfolding is_space
has_content [] = false
has_content (c ∷ l) = if is_space c then has_content l else true

-- `while "\n" in buffer: line, buffer = buffer.split("\n", 1)`: the lines, and the rest of the buffer.
unfoldable pub split_lines : Text → List Text × Text
split_lines [] = ([], [])
split_lines (c ∷ l) =
    let (lines, rest) = split_lines l in
    if c == 10
    then ([] ∷ lines, rest)
    else elim lines [ [] ↦ ([], c ∷ rest) | x ∷ xs ↦ ((c ∷ x) ∷ xs, rest) ]

-- The body of the inner loop for one line.
unfoldable pub handle_line : Docker → Text → Docker
unfolding has_content
handle_line b l =
    if has_content l
    then record b {
      stats = record b.stats { messages_out = b.stats.messages_out + 1 };
      calls = b.calls ++ handled_all b.message_handlers l;
    }
    else b

unfoldable pub handle_lines : Docker → List Text → Docker
unfolding handle_line
handle_lines b [] = b
handle_lines b (l ∷ ls) = handle_lines (handle_line b l) ls

-- One block that is read, once it is decoded.
unfoldable pub take_text : Docker → Text → Text → Docker × Text
unfolding split_lines handle_lines
take_text b buffer t = let (lines, rest) = split_lines (buffer ++ t) in (handle_lines b lines, rest)

abbrev pub count_bytes : Docker → List ℕ → Docker
count_bytes b block = record b {
  stats = record b.stats { bytes_out = b.stats.bytes_out + length block };
}

-- The read loop over the blocks that come, up to the end of the connection. A block that does not
-- decode raises, which ends the loop; neither end changes the state.
unfoldable pub read_loop : Docker → Text → List (List ℕ) → Docker × Text
unfolding take_text decode
read_loop b buffer [] = (b, buffer)
read_loop b buffer (block ∷ blocks) =
    if is_running_state b.state
    then elim (decode block) [
      | none ↦ (count_bytes b block, buffer)
      | some t ↦
          (let (b', rest) = take_text (count_bytes b block) buffer t in read_loop b' rest blocks)
    ]
    else (b, buffer)
