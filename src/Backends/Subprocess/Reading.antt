-- ===== src/Backends/Subprocess/Reading.antt =====
-- The read loop of `SubprocessBackend` in stdiobus/backends/subprocess.py: what reaches the handlers.
use stdiobus_python.Base.{
  ℕ, ◌+◌, ◌≡◌, ap, ◌∙◌, Bool, true, false, none, some, List, [], ◌∷◌, ◌++◌, map, arith, string-Eq,
  is_empty, if◌then◌else◌,
}
use mathlib.Core.List.{append_assoc, append-nil}
use stdiobus_python.Types.Enums.{running, stopped, is_running_state}
use stdiobus_python.Client.State.{Runtime}
use stdiobus_python.Backends.Subprocess.{
  Subprocess, Notice, handled, closed, Line, read_line, end_reading, read_loop,
}

module _ (rt : Runtime) where
  -- A line that is not empty and that is JSON.
  abbrev pub is_message : Line → Bool
  is_message l =
      if is_empty l.text then false else elim (rt.loads l.text) [ none ↦ false | some j ↦ true ]

  -- The handlers' calls for the lines, and how many messages and bytes these are.
  abbrev pub calls_for : List ℕ → List Line → List Notice
  calls_for hs [] = []
  calls_for hs (l ∷ ls) =
      (if is_message l then map (λ h. handled h l.text) hs else []) ++ calls_for hs ls

  abbrev pub count_messages : List Line → ℕ
  count_messages [] = 0
  count_messages (l ∷ ls) = (if is_message l then 1 else 0) + count_messages ls

  abbrev pub count_bytes : List Line → ℕ
  count_bytes [] = 0
  count_bytes (l ∷ ls) = (if is_message l then l.size else 0) + count_bytes ls

  pub read_line_effect :
      (b : Subprocess) (l : Line)
      → ((read_line rt b l).state ≡ b.state)
        × ((read_line rt b l).message_handlers ≡ b.message_handlers)
        × ((read_line rt b l).notices
            ≡ b.notices
              ++ (if is_message l then map (λ h. handled h l.text) b.message_handlers else []))
        × ((read_line rt b l).stats.messages_out
            ≡ b.stats.messages_out + (if is_message l then 1 else 0))
        × ((read_line rt b l).stats.bytes_out
            ≡ b.stats.bytes_out + (if is_message l then l.size else 0))
  unfolding read_line
  read_line_effect b l = ground (arith, append-nil b.notices)

  -- Reading up to the end of the file: the handlers get each line that is JSON, in order, and no other;
  -- the counters count those; and at the end the backend stops and calls back once.
  pub read_loop_all :
      (ls : List Line) (b : Subprocess)
      → b.state ≡ running
      → ((read_loop rt b ls).state ≡ stopped)
        × ((read_loop rt b ls).notices
            ≡ b.notices ++ calls_for b.message_handlers ls ++ closed ∷ [])
        × ((read_loop rt b ls).stats.messages_out ≡ b.stats.messages_out + count_messages ls)
        × ((read_loop rt b ls).stats.bytes_out ≡ b.stats.bytes_out + count_bytes ls)
  unfolding read_loop end_reading
  read_loop_all [] b r = ground (arith, append-nil b.notices)
  read_loop_all (l ∷ ls) b r =
      let (s, hs, ns, ms, bs) = read_line_effect b l in
      let (s', ns', ms', bs') = read_loop_all ls (read_line rt b l) (s ∙ r) in
      rw (ap is_running_state r) (
        s',
        ns' ∙ rw (ns, hs) (simp append_assoc),
        ms' ∙ omega (arith, ms),
        bs' ∙ omega (arith, bs),
      )
