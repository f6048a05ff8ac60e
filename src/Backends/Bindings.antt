-- ===== src/Backends/Bindings.antt =====
-- The build of the C bindings in stdiobus/native/build_ffi.py, up to what it hands over to cffi.
pub mod Agreement
use stdiobus_python.Base.{
  String, Bool, ◌||◌, Option, none, some, List, [], ◌∷◌, ◌<>◌, ◌==◌, string-Eq, if◌then◌else◌,
}

-- `platform.system().lower()`, `platform.machine().lower()`, the two directories that the script finds from
-- its own path, which files there are, and the text of cdefs.h.
pub record Host : Type 0 where
  pub system : String
  pub machine : String
  pub kernel_prebuilds : String
  pub project_root : String
  pub exists : String → Bool
  pub cdefs : String

-- The errors of the script, with what their messages name.
pub data BuildError : Type 0 where
  unsupported_architecture unsupported_system : String → BuildError
  no_library : (triple bundled legacy : String) → BuildError

pub data Result (A : Type 0) : Type 0 where
  gives : A → Result A
  fails : BuildError → Result A

-- The dictionary of the architectures' names.
unfoldable pub arch_name : String → Option String
arch_name m =
    if m == "x86_64"
    then some "x86_64"
    else if m == "amd64"
    then some "x86_64"
    else if m == "arm64"
    then some "aarch64"
    else if m == "aarch64"
    then some "aarch64"
    else none

-- _host_triple
unfoldable pub host_triple : Host → Result String
host_triple h = elim (arch_name h.machine) [
  | none ↦ fails (unsupported_architecture h.machine)
  | some arch ↦
      if h.system == "darwin"
      then gives (arch <> "-apple-darwin")
      else if h.system == "linux"
      then gives (arch <> "-unknown-linux-gnu")
      else fails (unsupported_system h.system)
]

-- `d / name`
abbrev pub child : String → String → String
child d name = d <> "/" <> name

pub record Library : Type 0 where
  pub dir : String
  pub triple : String

abbrev pub bundled : Host → String → String
bundled h triple = child h.kernel_prebuilds triple

abbrev pub legacy : Host → String
legacy h = child h.project_root "build"

abbrev pub has_library : Host → String → Bool
has_library h d = h.exists (child d "libstdio_bus.a")

unfoldable pub find_library : Host → String → Result Library
find_library h triple =
    if has_library h (bundled h triple)
    then gives (record { dir = bundled h triple; triple = triple })
    else if has_library h (legacy h)
    then gives (record { dir = legacy h; triple = triple <> " (legacy)" })
    else fails (no_library triple (bundled h triple) (legacy h))

-- _resolve_lib_dir
unfoldable pub resolve_lib_dir : Host → Result Library
resolve_lib_dir h = elim (host_triple h) [
  | fails e ↦ fails e
  | gives triple ↦ find_library h triple
]

-- _arch_compile_args
unfoldable pub arch_compile_args : Host → List String
arch_compile_args h =
    if h.system == "darwin"
    then "-arch"
      ∷ (if (h.machine == "arm64") || (h.machine == "aarch64") then "arm64" else "x86_64")
      ∷ []
    else []

-- What `ffi.cdef` and `ffi.set_source` are called with.
pub record Source : Type 0 where
  pub cdef : String
  pub module_name : String
  pub source : String
  pub library_dirs : List String
  pub libraries : List String
  pub extra_compile_args : List String
  pub extra_link_args : List String

abbrev pub system_includes : String
system_includes = "#include <stddef.h>\n#include <stdint.h>\n#include <stdbool.h>\n\n"

-- The script from the library on.
unfoldable pub set_source : Host → Library → Source
unfolding arch_compile_args
set_source h l = record {
  cdef = h.cdefs;
  module_name = "stdiobus.native._ffi";
  source = system_includes <> h.cdefs;
  library_dirs = l.dir ∷ [];
  libraries = "stdio_bus" ∷ [];
  extra_compile_args = "-std=c11" ∷ arch_compile_args h;
  extra_link_args = arch_compile_args h;
}

-- The script.
unfoldable pub build : Host → Result Source
build h = elim (resolve_lib_dir h) [ fails e ↦ fails e | gives l ↦ gives (set_source h l) ]
