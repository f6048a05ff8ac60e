-- ===== src/System/Carriers/Container.antt =====
-- The container of stdiobus/backends/docker.py as a carrier.
use stdiobus_python.Base.{
  ℕ, String, ◌≡◌, refl, sym, ap, ◌∙◌, Bool, true, false, ◌&&◌, not, none, some, List, [], ◌∷◌, ◌++◌,
  ◌==◌, nat-Eq, if◌then◌else◌, Bool-cases, inl, inr, arith, All,
}
use mathlib.Core.List.{append_assoc, append-nil}
use stdiobus_python.Types.Enums.{running, is_running_state}
use stdiobus_python.Client.Bus.{BackendOps, returned}
use stdiobus_python.Backends.Text.{Text, Handled}
use stdiobus_python.Backends.Utf8.{decode}
use stdiobus_python.Backends.Docker
use stdiobus_python.Backends.Docker.{
  Docker, Launch, count_bytes, handle_lines, take_text, split_lines, has_content,
}
use stdiobus_python.Backends.Docker.Framing.{
  blocks_of, texts_of, calls_for, split_lines-append, rest_whole, handle_lines_effect,
}
use stdiobus_python.System.{client_handler}
use stdiobus_python.System.Carrier.{Carrier, delivered}

-- The backend with the local variables of its read loop, which is over after a block that does not decode.
pub record Reading : Type 0 where
  pub docker : Docker
  pub buffer : Text
  pub is_over : Bool

abbrev pub IsReady : Reading → Type 0
IsReady k = (k.docker.state ≡ running) × (k.docker.has_writer ≡ true)

-- `to_text` is the text of a list of code points; how a launch goes is given for each call.
module _ (to_text : Text → String) (launch : Launch) where
  abbrev pub heard : List Handled → List String
  heard [] = []
  heard (c ∷ cs) = if c.handler == client_handler then to_text c.line ∷ heard cs else heard cs

  abbrev taken : Docker × Text → Reading × List String
  taken (d, rest) =
      (record { docker = record d { calls = [] }; buffer = rest; is_over = false }, heard d.calls)

  -- A block that the read loop reads, with the handlers' calls taken out of the record.
  unfoldable pub read : Reading → List ℕ → Reading × List String
  read k block =
      if is_running_state k.docker.state && not k.is_over
      then elim (decode block) [
        | none ↦ (record k { docker = count_bytes k.docker block; is_over = true }, [])
        | some t ↦ taken (take_text (count_bytes (record k.docker { calls = [] }) block) k.buffer t)
      ]
      else (record k { is_over = true }, [])

  abbrev pub container_ops : BackendOps Reading
  container_ops = record {
    get_state = λ k. k.docker.state;
    send =
        λ k m. (let (d, s) = Docker.send k.docker m true in (record k { docker = d }, returned s));
    start = λ k. (let (d, e) = Docker.start k.docker launch in (record k { docker = d }, e));
    stop = λ k. record k { docker = Docker.stop k.docker };
    destroy = λ k. record k { docker = Docker.destroy k.docker };
  }

  pub container_runs : (k : Reading) → IsReady k → is_running_state k.docker.state ≡ true
  container_runs k r = ap is_running_state r.0

  pub container_sends :
      (k : Reading) (m : String) → IsReady k → (container_ops.send k m).1 ≡ returned true
  unfolding Docker.send
  container_sends k m r = ground arith

  abbrev pub container : Carrier
  container = record {
    Backend = Reading;
    Input = List ℕ;
    ops = container_ops;
    read = read;
    IsReady = IsReady;
    ready_runs = container_runs;
    ready_sends = container_sends;
  }

  -- The texts of the lines that have content.
  abbrev pub contents : List Text → List String
  contents [] = []
  contents (l ∷ ls) = if has_content l then to_text l ∷ contents ls else contents ls

  heard-calls : (ls : List Text) → heard (calls_for (client_handler ∷ []) ls) ≡ contents ls
  heard-calls [] = refl
  heard-calls (l ∷ ls) = elim (Bool-cases (has_content l)) [
    | inl full ↦ rw full (ap (◌∷◌ (to_text l)) (heard-calls ls))
    | inr blank ↦ rw blank (heard-calls ls)
  ]

  contents-append : (ls ms : List Text) → contents (ls ++ ms) ≡ contents ls ++ contents ms
  contents-append [] ms = refl
  contents-append (l ∷ ls) ms = elim (Bool-cases (has_content l)) [
    | inl full ↦ rw full (ap (◌∷◌ (to_text l)) (contents-append ls ms))
    | inr blank ↦ rw blank (contents-append ls ms)
  ]

  -- The client is the only listener of a loop that reads.
  abbrev pub IsListening : Reading → Type 0
  IsListening k =
      (k.docker.state ≡ running)
      × (k.docker.message_handlers ≡ client_handler ∷ [])
      × (k.is_over ≡ false)

  read_block :
      (k : Reading) (block : List ℕ) (t : Text)
      → IsListening k
      → decode block ≡ some t
      → ((read k block).1 ≡ contents (split_lines (k.buffer ++ t)).0)
        × ((read k block).0.buffer ≡ (split_lines (k.buffer ++ t)).1)
        × IsListening (read k block).0
  unfolding read take_text
  read_block k block t (r, h, o) e =
      let start : Docker = count_bytes (record k.docker { calls = [] }) block in
      let lines = (split_lines (k.buffer ++ t)).0 in
      let (s, hs, cs) = handle_lines_effect start lines in
      rw (ap is_running_state r, o, e)
        (
          ap heard (cs ∙ ap (λ x. calls_for x lines) h) ∙ heard-calls lines,
          refl,
          (s ∙ r, hs ∙ h, refl),
        )

  -- However the container's output is cut into blocks, as long as each of them decodes by itself, the
  -- client's handler gets the lines of the whole text that have content, in order.
  pub delivered-container :
      (es : List (List ℕ × Text)) (k : Reading)
      → IsListening k
      → All (λ e. decode e.0 ≡ some e.1) es
      → split_lines k.buffer ≡ ([], k.buffer)
      → delivered container k (blocks_of es) ≡ contents (split_lines (k.buffer ++ texts_of es)).0
  delivered-container [] k v d w = rw (append-nil k.buffer, w) refl
  delivered-container (e ∷ es) k v d w =
      let (ms, rest, v') = read_block k e.0 e.1 v d.0 in
      let now = split_lines (k.buffer ++ e.1) in
      let whole : split_lines (rest_of k e) ≡ ([], rest_of k e) =
        ap (λ x. split_lines x) rest
        ∙ rest_whole (k.buffer ++ e.1)
        ∙ ap (λ x. ([], x)) (sym rest) in
      rw ms (
        ap (λ x. contents now.0 ++ x)
          (delivered-container es (read k e.0).0 v' d.1 whole
            ∙ ap (λ x. contents (split_lines (x ++ texts_of es)).0) rest)
        ∙ sym (contents-append now.0 (split_lines (now.1 ++ texts_of es)).0)
        ∙ ap (λ (r : List Text × Text). contents r.0)
            (sym (
              ap split_lines (sym (append_assoc k.buffer e.1 (texts_of es)))
              ∙ split_lines-append (k.buffer ++ e.1) (texts_of es))))
    where
      rest_of : Reading → List ℕ × Text → Text
      rest_of j e = (read j e.0).0.buffer
