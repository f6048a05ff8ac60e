-- ===== src/Backends/Tests/Builds.antt =====
-- A build of stdiobus/native/build_ffi.py at concrete inputs.
use stdiobus_python.Base.{◌≡◌, refl, ◌==◌, string-Eq, [], ◌∷◌}
use stdiobus_python.Backends.Bindings.{
  Host, gives, build, host_triple, arch_name, find_library, resolve_lib_dir, arch_compile_args,
}
use stdiobus_python.Backends.Bindings.Agreement.{IsBuilt, build_lem}

-- An ARM Mac with the bundled library.
abbrev mac : Host
mac = record {
  system = "darwin";
  machine = "arm64";
  kernel_prebuilds = "/sdk/kernel/prebuilds";
  project_root = "/work";
  exists = λ p. p == "/sdk/kernel/prebuilds/aarch64-apple-darwin/libstdio_bus.a";
  cdefs = "int stdio_bus_step(void);";
}

build_lem_example : IsBuilt mac (build mac)
build_lem_example = build_lem mac

mac_arguments : arch_compile_args mac ≡ "-arch" ∷ "arm64" ∷ []
unfolding arch_compile_args
mac_arguments = refl

mac_library :
    resolve_lib_dir mac
    ≡ gives (record {
      dir = "/sdk/kernel/prebuilds/aarch64-apple-darwin";
      triple = "aarch64-apple-darwin";
    })
unfolding resolve_lib_dir host_triple arch_name find_library
mac_library = refl
