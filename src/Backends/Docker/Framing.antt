-- ===== src/Backends/Docker/Framing.antt =====
-- The framing of `DockerBackend` in stdiobus/backends/docker.py: how blocks of data become lines, and
-- how the read loop ends.
use mathlib.Core.List.{append_assoc, append-nil}
use stdiobus_python.Base.{
  ℕ, ◌≡◌, refl, sym, ap, ◌∙◌, true, false, some, List, [], ◌∷◌, ◌++◌, All, ◌==◌, nat-Eq,
  if◌then◌else◌, Bool-cases, Option-cases, inl, inr,
}
use stdiobus_python.Types.Enums.{running, is_running_state}
use stdiobus_python.Backends.Utf8.{decode}
use stdiobus_python.Backends.Text.{Text, Handled, handled_all}
use stdiobus_python.Backends.Docker.{
  Docker, has_content, split_lines, handle_line, handle_lines, take_text, count_bytes, read_loop,
}

-- A text after which more comes: its lines stay, and its rest begins what follows.
abbrev pub continue_lines : List Text × Text → Text → List Text × Text
continue_lines r u = (r.0 ++ (split_lines (r.1 ++ u)).0, (split_lines (r.1 ++ u)).1)

-- A code point before the first line, or before the rest where there is no line.
abbrev push : ℕ → List Text × Text → List Text × Text
push c ([], rest) = ([], c ∷ rest)
push c (x ∷ xs, rest) = ((c ∷ x) ∷ xs, rest)

push-split_lines :
    (c : ℕ) (l : Text) → (c == 10) ≡ false → split_lines (c ∷ l) ≡ push c (split_lines l)
unfolding split_lines
push-split_lines c l other = rw other (pushed (split_lines l))
  where
    pushed :
        (r : List Text × Text)
        → (elim r.0 as (λ x. List Text × Text) [
          | [] ↦ ([], c ∷ r.1)
          | x ∷ xs ↦ ((c ∷ x) ∷ xs, r.1)
        ])
          ≡ push c r
    pushed ([], rest) = refl
    pushed (x ∷ xs, rest) = refl

newline-split_lines :
    (c : ℕ) (l : Text)
    → (c == 10) ≡ true
    → split_lines (c ∷ l) ≡ ([] ∷ (split_lines l).0, (split_lines l).1)
unfolding split_lines
newline-split_lines c l nl = rw nl

continue_lines-push :
    (c : ℕ) (r : List Text × Text) (u : Text)
    → (c == 10) ≡ false
    → push c (continue_lines r u) ≡ continue_lines (push c r) u
continue_lines-push c ([], rest) u other = sym (push-split_lines c (rest ++ u) other)
continue_lines-push c (x ∷ xs, rest) u other = refl

pub split_lines-append : (t u : Text) → split_lines (t ++ u) ≡ continue_lines (split_lines t) u
unfolding split_lines
split_lines-append [] u = refl
split_lines-append (c ∷ t) u = elim (Bool-cases (c == 10)) [
  | inl nl ↦
      newline-split_lines c (t ++ u) nl
      ∙ ap (λ (r : List Text × Text). ([] ∷ r.0, r.1)) (split_lines-append t u)
      ∙ ap (λ r. continue_lines r u) (sym (newline-split_lines c t nl))
  | inr other ↦
      push-split_lines c (t ++ u) other
      ∙ ap (push c) (split_lines-append t u)
      ∙ continue_lines-push c (split_lines t) u other
      ∙ ap (λ r. continue_lines r u) (sym (push-split_lines c t other))
]

-- The handlers' calls for the lines that have content.
abbrev pub calls_for : List ℕ → List Text → List Handled
calls_for hs [] = []
calls_for hs (l ∷ ls) = (if has_content l then handled_all hs l else []) ++ calls_for hs ls

calls_for-append :
    (hs : List ℕ) (ls ms : List Text) → calls_for hs (ls ++ ms) ≡ calls_for hs ls ++ calls_for hs ms
calls_for-append hs [] ms = refl
calls_for-append hs (l ∷ ls) ms = rw (calls_for-append hs ls ms) (simp append_assoc)

handle_line_effect :
    (b : Docker) (l : Text)
    → ((handle_line b l).state ≡ b.state)
      × ((handle_line b l).message_handlers ≡ b.message_handlers)
      × ((handle_line b l).calls
          ≡ b.calls ++ (if has_content l then handled_all b.message_handlers l else []))
unfolding handle_line
handle_line_effect b l = elim (Bool-cases (has_content l)) [
  | inl full ↦ rw full (refl, refl, refl)
  | inr blank ↦ rw blank (refl, refl, sym (append-nil b.calls))
]

pub handle_lines_effect :
    (b : Docker) (ls : List Text)
    → ((handle_lines b ls).state ≡ b.state)
      × ((handle_lines b ls).message_handlers ≡ b.message_handlers)
      × ((handle_lines b ls).calls ≡ b.calls ++ calls_for b.message_handlers ls)
unfolding handle_lines
handle_lines_effect b [] = (refl, refl, sym (append-nil b.calls))
handle_lines_effect b (l ∷ ls) =
    let (s, hs, cs) = handle_line_effect b l in
    let (s', hs', cs') = handle_lines_effect (handle_line b l) ls in
    (s' ∙ s, hs' ∙ hs, cs' ∙ rw (cs, hs) (simp append_assoc))

-- The blocks' texts, one after the other.
abbrev pub texts_of : List (List ℕ × Text) → Text
texts_of [] = []
texts_of (e ∷ es) = e.1 ++ texts_of es

abbrev pub blocks_of : List (List ℕ × Text) → List (List ℕ)
blocks_of [] = []
blocks_of (e ∷ es) = e.0 ∷ blocks_of es

rest_push :
    (c : ℕ) (r : List Text × Text)
    → (c == 10) ≡ false
    → split_lines r.1 ≡ ([], r.1)
    → split_lines (push c r).1 ≡ ([], (push c r).1)
rest_push c ([], rest) other h = push-split_lines c rest other ∙ ap (push c) h
rest_push c (x ∷ xs, rest) other h = h

-- The rest holds no newline.
pub rest_whole : (t : Text) → split_lines (split_lines t).1 ≡ ([], (split_lines t).1)
rest_whole [] = unfold split_lines in refl
rest_whole (c ∷ t) = elim (Bool-cases (c == 10)) [
  | inl nl ↦ rw (newline-split_lines c t nl) (rest_whole t)
  | inr other ↦ rw (push-split_lines c t other) (rest_push c (split_lines t) other (rest_whole t))
]

-- One block that decodes, while the backend runs.
read_loop_block :
    (b : Docker) (buffer t : Text) (block : List ℕ) (blocks : List (List ℕ))
    → b.state ≡ running
    → decode block ≡ some t
    → read_loop b buffer (block ∷ blocks)
      ≡ read_loop
          (handle_lines (count_bytes b block) (split_lines (buffer ++ t)).0)
          (split_lines (buffer ++ t)).1
          blocks
unfolding read_loop take_text
read_loop_block b buffer t block blocks r d = rw (ap is_running_state r) (rw (d, read_loop))

-- However the data is cut into blocks, as long as each of them decodes by itself, the handlers get the
-- lines of the whole text that have content, in order, each once; what follows the last newline is
-- kept. The buffer holds no newline at the start.
pub read_loop_framed :
    (es : List (List ℕ × Text)) (b : Docker) (buffer : Text)
    → All (λ e. decode e.0 ≡ some e.1) es
    → b.state ≡ running
    → split_lines buffer ≡ ([], buffer)
    → ((read_loop b buffer (blocks_of es)).0.calls
        ≡ b.calls ++ calls_for b.message_handlers (split_lines (buffer ++ texts_of es)).0)
      × ((read_loop b buffer (blocks_of es)).1 ≡ (split_lines (buffer ++ texts_of es)).1)
read_loop_framed [] b buffer d r whole =
    unfold read_loop in rw (append-nil buffer, whole) (sym (append-nil b.calls), refl)
read_loop_framed (e ∷ es) b buffer d r whole =
    let now = split_lines (buffer ++ e.1) in
    let (s, hs, cs) = handle_lines_effect (count_bytes b e.0) now.0 in
    let (cs', rest) =
      read_loop_framed es (handle_lines (count_bytes b e.0) now.0) now.1 d.1 (s ∙ r)
        (rest_whole (buffer ++ e.1)) in
    let all : split_lines (buffer ++ (e.1 ++ texts_of es)) ≡ continue_lines now (texts_of es) =
      ap split_lines (sym (append_assoc buffer e.1 (texts_of es)))
      ∙ split_lines-append (buffer ++ e.1) (texts_of es) in
    rw (read_loop_block b buffer e.1 e.0 (blocks_of es) r d.0, all)
      (
        cs'
            ∙ rw (cs, hs) (append_assoc b.calls _ _)
            ∙ ap (λ x. b.calls ++ x) (sym (calls_for-append b.message_handlers now.0 _)),
        rest,
      )

-- The read loop never changes the state: when the connection ends, or a block does not decode, the
-- backend is still in the state that it had, `RUNNING`.
pub read_loop-state :
    (blocks : List (List ℕ)) (b : Docker) (buffer : Text)
    → (read_loop b buffer blocks).0.state ≡ b.state
unfolding read_loop take_text
read_loop-state [] b buffer = refl
read_loop-state (block ∷ blocks) b buffer = elim (Bool-cases (is_running_state b.state)) [
  | inr off ↦ rw off
  | inl on ↦ rw on (elim (Option-cases (decode block)) [
    | inl e ↦ rw (e, read_loop)
    | inr (t, e) ↦
        rw (e, read_loop)
          (read_loop-state blocks (handle_lines (count_bytes b block) (split_lines (buffer ++ t)).0)
              _
            ∙ (handle_lines_effect (count_bytes b block) (split_lines (buffer ++ t)).0).0)
  ])
]
