-- ===== src/Backends/Native/Operations.antt =====
-- The methods of `NativeBackend` in stdiobus/backends/native.py. `th` is the calling thread.
use Prim.Native.Nat.{◌/◌}
use stdiobus_python.Base.{
  ℕ, zero, suc, ◌+◌, Bool, true, false, ◌&&◌, ◌||◌, not, Option, none, some, List, [], ◌∷◌, ◌++◌,
  ◌==◌, nat-Eq, if◌then◌else◌,
}
use stdiobus_python.Errors.{value_error}
use stdiobus_python.Client.Bus.{Sent, returned, raised}
use stdiobus_python.Backends.Utf8.{encode}
use stdiobus_python.Backends.Text.{Text}
use stdiobus_python.Backends.Native.Starting.{is_ok, is_some, transport_error, schedule_poll_timer}
use stdiobus_python.Backends.Native.State.{
  Library, Native, Pointer, absent, live, LibraryCall, uses, destroys, call_back_all,
}

abbrev pub pred : ℕ → ℕ
pred zero = zero
pred (suc n) = n

-- remove_reader, in `stop` and `destroy`
abbrev without_reader : Bool → Option ℕ → Option ℕ
without_reader true r = none
without_reader false r = r

module _ {H : Type 0} where
  abbrev cancel_timer : Native H → Native H
  cancel_timer b = if b.has_timer then record b { timers = pred b.timers; has_timer = false } else b

  abbrev remove_reader : Native H → Native H
  remove_reader b = record b {
    reader = without_reader (is_some b.loop && is_some b.poll_fd) b.reader;
  }

  -- `_assert_loop_thread` passes.
  unfoldable pub on_loop_thread : Native H → ℕ → Bool
  on_loop_thread b th = elim b.thread [ none ↦ true | some t ↦ th == t ]

  module _ (lib : Library H) where
    -- lib.stdio_bus_step(self._bus, ms), with the callbacks that it makes
    unfoldable pub step_library : Native H → (th ms : ℕ) → Native H
    unfolding call_back_all
    step_library b th ms = elim b.bus [
      | live h ↦
          let (h', cs) = lib.step h ms in
          call_back_all (record b { bus = live h'; log = uses th ∷ b.log }) cs
      | _ ↦ b
    ]

    unfoldable pub step_nonblocking : Native H → (th : ℕ) → Native H
    unfolding step_library
    step_nonblocking b th = if b.is_stepping || b.is_stopping then b else elim b.bus [
      | live h ↦ record (step_library (record b { is_stepping = true }) th 0) {
        is_stepping = false;
      }
      | _ ↦ b
    ]

    -- The timer has fired.
    unfoldable pub on_poll_timer : Native H → (th : ℕ) → Native H
    unfolding step_nonblocking schedule_poll_timer
    on_poll_timer b th =
        let b' : Native H = record b { has_timer = false; timers = pred b.timers } in
        if b.is_stopping then b' else schedule_poll_timer (step_nonblocking b' th)

    unfoldable pub on_poll_ready : Native H → (th : ℕ) → Native H
    unfolding step_nonblocking
    on_poll_ready b th = if b.is_stopping then b else step_nonblocking b th

    -- The loop of `stop`, for the steps that are left.
    unfoldable pub drain : ℕ → (th : ℕ) → Native H → Native H
    unfolding step_library
    drain zero th b = b
    drain (suc n) th b = elim b.bus [
      | live h ↦
          let asked : Native H = record b { log = uses th ∷ b.log } in
          elim (lib.get_state h == 4) [
            | true ↦ asked
            | false ↦ drain n th (step_library asked th 1)
          ]
      | _ ↦ b
    ]

    -- `stop` up to the drain.
    unfoldable pub begin_stop : Native H → H → (th timeout_ms : ℕ) → Native H
    begin_stop b h th timeout_ms =
        let b' = cancel_timer (remove_reader (record b { is_stopping = true })) in
        record b' {
          poll_fd = none;
          bus = live (lib.stop h (timeout_ms / 1000)).0;
          log = uses th ∷ b.log;
        }

    -- The timeout in milliseconds, which is also the number of steps of the drain.
    unfoldable pub stop : Native H → (th timeout_ms : ℕ) → Native H
    unfolding begin_stop drain
    stop b th timeout_ms = elim b.bus [
      | live h ↦ drain timeout_ms th (begin_stop b h th timeout_ms)
      | _ ↦ b
    ]

    unfoldable pub ingest : Native H → H → (th : ℕ) → List ℕ → Native H × Sent
    ingest b h th bytes =
        let (h', r) = lib.ingest h bytes in
        let b' : Native H = record b { bus = live h'; log = uses th ∷ b.log } in
        if is_ok r
        then (
          record b' {
            stats = record b.stats { messages_in = b.stats.messages_in + 1 };
            soon = (if is_some b.loop && not b.is_stopping then suc b.soon else b.soon);
          },
          returned true,
        )
        else (b', returned false)

    unfoldable pub send : Native H → (th : ℕ) → Text → Native H × Sent
    unfolding ingest on_loop_thread encode
    send b th m = elim b.bus [
      | live h ↦
          if on_loop_thread b th
          then elim (encode m) [
            | none ↦ (b, raised (value_error "surrogates not allowed"))
            | some bytes ↦ ingest b h th bytes
          ]
          else (
            b,
            raised (
                transport_error
                  "NativeBackend C API calls must run on the owning event loop thread"),
          )
      | _ ↦ (b, returned false)
    ]

    -- A scheduled `_step_nonblocking` runs.
    unfoldable pub run_soon : Native H → (th : ℕ) → Native H
    unfolding step_nonblocking
    run_soon b th = step_nonblocking (record b { soon = pred b.soon }) th

  abbrev release : Pointer H → Pointer H
  release (live h) = absent
  release p = p

  abbrev release_log : Pointer H → (th : ℕ) → List LibraryCall → List LibraryCall
  release_log (live h) th log = destroys th ∷ log
  release_log p th log = log

  unfoldable pub destroy : Native H → (th : ℕ) → Native H
  destroy b th =
      let b' = cancel_timer (remove_reader b) in
      record b' {
        bus = release b.bus;
        log = release_log b.bus th b.log;
        poll_fd = none;
        loop = none;
        thread = none;
        is_stopping = false;
        is_stepping = false;
        message_handlers = [];
        strings = [];
      }

-- on_message
unfoldable pub on_message : {H : Type 0} → Native H → ℕ → Native H
on_message b h = record b { message_handlers = b.message_handlers ++ h ∷ [] }
