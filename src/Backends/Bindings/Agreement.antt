-- ===== src/Backends/Bindings/Agreement.antt =====
-- The library that stdiobus/native/build_ffi.py links and the architecture that it compiles for.
use stdiobus_python.Base.{
  String, ◌≡◌, ◌≢◌, refl, sym, ap, ◌∙◌, true, false, ◌||◌, none, some, List, [], ◌∷◌, ◌<>◌, ◌==◌,
  string-Eq, if◌then◌else◌, Bool-cases, Option-cases, inl, inr, if-true, if-false,
}
use stdiobus_python.Backends.Bindings.{
  Host, unsupported_architecture, unsupported_system, no_library, Result, gives, fails, arch_name,
  host_triple, Library, bundled, legacy, has_library, find_library, resolve_lib_dir,
  arch_compile_args, Source, set_source, build, system_includes,
}

-- The name that the compiler of macOS has for an architecture of the triples.
abbrev pub apple_arch : String → String
apple_arch a = if a == "aarch64" then "arm64" else a

abbrev compiled : String → String
compiled m = if (m == "arm64") || (m == "aarch64") then "arm64" else "x86_64"

known_name :
    (m a k b : String)
    → (m == k) ≡ true
    → arch_name m ≡ some a
    → arch_name k ≡ some b
    → compiled k ≡ apple_arch b
    → compiled m ≡ apple_arch a
known_name m a k b t e f c =
    let same : m ≡ k = (string-Eq.same_iff m k).0 t in
    let arch : some a ≡ some b = sym e ∙ ap arch_name same ∙ f in
    let result : a ≡ b = cc arch in ap compiled same ∙ c ∙ sym (ap apple_arch result)

compiled-agrees : (m a : String) → arch_name m ≡ some a → compiled m ≡ apple_arch a
unfolding arch_name
compiled-agrees m a e = elim (Bool-cases (m == "x86_64")) [
  | inl t ↦ known_name m a "x86_64" "x86_64" t e refl refl
  | inr f1 ↦ elim (Bool-cases (m == "amd64")) [
    | inl t ↦ known_name m a "amd64" "x86_64" t e refl refl
    | inr f2 ↦ elim (Bool-cases (m == "arm64")) [
      | inl t ↦ known_name m a "arm64" "aarch64" t e refl refl
      | inr f3 ↦ elim (Bool-cases (m == "aarch64")) [
        | inl t ↦ known_name m a "aarch64" "aarch64" t e refl refl
        | inr f4 ↦ absurd (unknown e f1 f2 f3 f4)
      ]
    ]
  ]
]
  where
    unknown :
        arch_name m ≡ some a
        → (m == "x86_64") ≡ false
        → (m == "amd64") ≡ false
        → (m == "arm64") ≡ false
        → (m == "aarch64") ≡ false
        → ⊥
    unknown e f1 f2 f3 f4 =
        let none_known : arch_name m ≡ none =
          if-false _ _ _ f1 ∙ if-false _ _ _ f2 ∙ if-false _ _ _ f3 ∙ if-false _ _ _ f4 in
        cc (e, none_known)

-- The triple of a machine: its architecture and a system, with what the compiler is told of it.
pub data Platform (h : Host) : (triple : String) → (arguments : List String) → Type 0 where
  apple :
      (a : String)
      → h.system ≡ "darwin"
      → arch_name h.machine ≡ some a
      → Platform h (a <> "-apple-darwin") ("-arch" ∷ apple_arch a ∷ [])
  gnu :
      (a : String)
      → h.system ≡ "linux"
      → arch_name h.machine ≡ some a
      → Platform h (a <> "-unknown-linux-gnu") []

-- The directory of a library for the triple.
pub data Place (h : Host) (triple : String) : String → Type 0 where
  at_bundled : has_library h (bundled h triple) ≡ true → Place h triple (bundled h triple)
  at_legacy :
      has_library h (bundled h triple) ≡ false
      → has_library h (legacy h) ≡ true
      → Place h triple (legacy h)

-- What the script comes to.
abbrev pub IsBuilt : Host → Result Source → Type 0
IsBuilt h (gives s) =
    (triple : String) × (d : String) × Platform h triple s.extra_link_args
    × Place h triple d
    × (s.library_dirs ≡ d ∷ [])
    × (s.libraries ≡ "stdio_bus" ∷ [])
    × (s.module_name ≡ "stdiobus.native._ffi")
    × (s.cdef ≡ h.cdefs)
    × (s.source ≡ system_includes <> h.cdefs)
    × (s.extra_compile_args ≡ "-std=c11" ∷ s.extra_link_args)
IsBuilt h (fails (unsupported_architecture m)) = (m ≡ h.machine) × (arch_name m ≡ none)
IsBuilt h (fails (unsupported_system s)) = (s ≡ h.system) × (s ≢ "darwin") × (s ≢ "linux")
IsBuilt h (fails (no_library triple b l)) =
    (host_triple h ≡ gives triple)
    × (b ≡ bundled h triple)
    × (l ≡ legacy h)
    × (has_library h b ≡ false)
    × (has_library h l ≡ false)

abbrev finished : Host → Result Library → Result Source
finished h r = elim r [ fails e ↦ fails e | gives l ↦ gives (set_source h l) ]

module _ (h : Host) where
  finished-IsBuilt :
      (triple : String)
      → host_triple h ≡ gives triple
      → Platform h triple (arch_compile_args h)
      → IsBuilt h (finished h (find_library h triple))
  unfolding set_source find_library
  finished-IsBuilt triple e p = elim (Bool-cases (has_library h (bundled h triple))) [
    | inl has ↦
        rw has (triple, bundled h triple, p, at_bundled has, refl, refl, refl, refl, refl, refl)
    | inr without ↦ elim (Bool-cases (has_library h (legacy h))) [
      | inl old ↦
          rw (without, old)
            (triple, legacy h, p, at_legacy without old, refl, refl, refl, refl, refl, refl)
      | inr gone ↦ rw (without, gone) (e, refl, refl, without, gone)
    ]
  ]

  built_for :
      (t : Result String)
      → host_triple h ≡ t
      → build h ≡ finished h (elim t [ fails e ↦ fails e | gives triple ↦ find_library h triple ])
  unfolding build resolve_lib_dir
  built_for t e =
      ap (λ t. finished h (elim t [ fails e ↦ fails e | gives triple ↦ find_library h triple ])) e

  triple_of : String → Result String
  triple_of arch =
      if h.system == "darwin"
      then gives (arch <> "-apple-darwin")
      else if h.system == "linux"
      then gives (arch <> "-unknown-linux-gnu")
      else fails (unsupported_system h.system)

  known_arch : (a : String) → arch_name h.machine ≡ some a → host_triple h ≡ triple_of a
  unfolding host_triple triple_of
  known_arch a e =
      ap
        (λ o. elim o as (λ x. Result String) [
          | none ↦ fails (unsupported_architecture h.machine)
          | some arch ↦ triple_of arch
        ])
        e

  same_text : (s t : String) → (s == t) ≡ true → s ≡ t
  same_text s t = (string-Eq.same_iff s t).0

  other_text : (s t : String) → (s == t) ≡ false → s ≢ t
  other_text s t f e = cc (sym ((string-Eq.same_iff s t).1 e) ∙ f)

  unknown_arch :
      arch_name h.machine ≡ none → host_triple h ≡ fails (unsupported_architecture h.machine)
  unfolding host_triple triple_of
  unknown_arch e =
      ap
        (λ o. elim o as (λ x. Result String) [
          | none ↦ fails (unsupported_architecture h.machine)
          | some arch ↦ triple_of arch
        ])
        e

  mac-Platform :
      (a : String)
      → arch_name h.machine ≡ some a
      → (h.system == "darwin") ≡ true
      → Platform h (a <> "-apple-darwin") (arch_compile_args h)
  unfolding arch_compile_args
  mac-Platform a known mac =
      rw (if-true _ ("-arch" ∷ compiled h.machine ∷ []) [] mac, compiled-agrees h.machine a known)
        (apple a (same_text h.system "darwin" mac) known)

  linux-Platform :
      (a : String)
      → arch_name h.machine ≡ some a
      → (h.system == "darwin") ≡ false
      → (h.system == "linux") ≡ true
      → Platform h (a <> "-unknown-linux-gnu") (arch_compile_args h)
  unfolding arch_compile_args
  linux-Platform a known not_mac linux =
      rw (if-false _ ("-arch" ∷ compiled h.machine ∷ []) [] not_mac)
        (gnu a (same_text h.system "linux" linux) known)

  found :
      (triple : String)
      → host_triple h ≡ gives triple
      → Platform h triple (arch_compile_args h)
      → IsBuilt h (build h)
  found triple e p = rw (built_for (gives triple) e) (finished-IsBuilt triple e p)

  pub build_lem : IsBuilt h (build h)
  unfolding triple_of
  build_lem = elim (Option-cases (arch_name h.machine)) [
    | inl unknown ↦
        rw (built_for (fails (unsupported_architecture h.machine)) (unknown_arch unknown))
          (refl, unknown)
    | inr (a, known) ↦ elim (Bool-cases (h.system == "darwin")) [
      | inl mac ↦
          found (a <> "-apple-darwin") (known_arch a known ∙ if-true _ _ _ mac)
            (mac-Platform a known mac)
      | inr not_mac ↦ elim (Bool-cases (h.system == "linux")) [
        | inl linux ↦
            found (a <> "-unknown-linux-gnu")
              (known_arch a known ∙ if-false _ _ _ not_mac ∙ if-true _ _ _ linux)
              (linux-Platform a known not_mac linux)
        | inr other ↦
            rw
              (built_for (fails (unsupported_system h.system))
                (known_arch a known ∙ if-false _ _ _ not_mac ∙ if-false _ _ _ other))
              (refl, other_text h.system "darwin" not_mac, other_text h.system "linux" other)
      ]
    ]
  ]
