-- ===== src/Client/Tests/Choices.antt =====
-- Runs of the choices of stdiobus/client.py: the backend, the constructor, the builder and a request.
use stdiobus_python.Base.{refl, true, false, none, some}
use stdiobus_python.Base.Int.{pos}
use stdiobus_python.Types.Enums.{auto, tcp}
use stdiobus_python.Types.Options.{NativeOptions}
use stdiobus_python.Client.Resolve.{Machine, resolve_backend, default_native, listener_requested}
use stdiobus_python.Client.Choice.{ListensOrRefused, listener_native}

-- A machine without a binary, with the native bindings.
abbrev linux : Machine
linux = record {
  system = "linux";
  bundled_is_file = false;
  bundled_path = "/b/stdio_bus";
  which = none;
  native_available = true;
}

abbrev listening : NativeOptions
listening = record default_native { mode = tcp; tcp_port = some (pos 9000) }

listener_native_example :
    ListensOrRefused
      (some "c.json")
      none
      listening
      true
      (resolve_backend linux (some "c.json") none auto none none (some listening))
unfolding listener_requested
listener_native_example = listener_native linux (some "c.json") none none none listening auto refl
