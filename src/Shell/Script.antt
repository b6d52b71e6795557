-- ===== src/Shell/Script.antt =====
-- loader.c: the lines of a batch script.
use libre_win.Prelude.{
  ℕ, zero, suc, ◌+◌, ◌≤◌, ◌<◌, ◌≡◌, ◌≢◌, ◌⊎◌, inl, inr, refl, ap, ◌∙◌, arith, Bool-cases, false,
  ◌==◌, if◌then◌else◌, some, List, [], ◌∷◌, ◌++◌, length,
}
use libre_win.Memory.{Mem}
use libre_win.Str.Text.{HasString, HasString-frame}
use libre_win.Str.Token.{Token, strtok}
use libre_win.Str.Words.{words}
use libre_win.Str.Cut.{IsRest, strtok-Cut}
use libre_win.Shell.{Output, Texts, Services, exec_line, space_loop, batch_loop}
use libre_win.Shell.Command.{cls_text, help_text, command_output, exec_line-command_output}

-- The bytes of "\r\n".
abbrev pub line_ends_text : List ℕ
line_ends_text = 13 ∷ 10 ∷ []

unfoldable pub trim : List ℕ → List ℕ
trim [] = []
trim (c ∷ line) = if c == b' ' then trim line else c ∷ line

abbrev pub shown_by : Services → List ℕ → List Output
shown_by s [] = []
shown_by s (c ∷ command) = command_output s (c ∷ command)

-- What the lines show and run, in order: each without the spaces at its start, and none that is blank.
unfoldable pub script_output : Services → List (List ℕ) → List Output
script_output s [] = []
script_output s (line ∷ lines) = shown_by s (trim line) ++ script_output s lines

space_loop-trim :
    (fuel : ℕ) (m : Mem) (p : ℕ) (line : List ℕ)
    → HasString m p line
    → length line < fuel
    → (q : ℕ) × (space_loop fuel m p ≡ some q)
      × HasString m q (trim line)
      × (length (trim line) ≤ length line)
unfolding space_loop trim
space_loop-trim zero m p line h lt = absurd (omega arith)
space_loop-trim (suc fuel) m p [] h lt = (p, rw h refl, h, omega arith)
space_loop-trim (suc fuel) m p (c ∷ line) (byte, not_end, rest) lt = elim (Bool-cases (c == b' ')) [
  | inl space ↦
      let (q, e, h, le) = space_loop-trim fuel m (p + 1) line rest (omega arith) in
      rw space (q, rw (byte, space) e, h, omega (arith, le))
  | inr other ↦ rw other (p, rw (byte, other) refl, (byte, not_end, rest), omega arith)
]

-- The texts that are compared with stand outside the buffer of the script.
pub record TextsApart (m : Mem) (t : Texts) (lo hi : ℕ) : Type 0 where
  pub has_cls : HasString m t.cls cls_text
  pub has_help : HasString m t.help help_text
  pub has_ends : HasString m t.line_ends line_ends_text
  pub cls_apart : (t.cls + 4 ≤ lo) ⊎ (hi < t.cls)
  pub help_apart : (t.help + 5 ≤ lo) ⊎ (hi < t.help)
  pub ends_apart : (t.line_ends + 3 ≤ lo) ⊎ (hi < t.line_ends)

frame_apart :
    (m n : Mem) (lo hi p : ℕ) (text : List ℕ)
    → (p + suc (length text) ≤ lo) ⊎ (hi < p)
    → ((x : ℕ) → (x < lo) ⊎ (hi < x) → n x ≡ m x)
    → HasString m p text
    → HasString n p text
frame_apart m n lo hi p text (inl below) same h =
    HasString-frame m n p text (λ i le. same (p + i) (inl (omega arith))) h
frame_apart m n lo hi p text (inr above) same h =
    HasString-frame m n p text (λ i le. same (p + i) (inr (omega arith))) h

pub TextsApart-frame :
    (m n : Mem) (t : Texts) (lo hi : ℕ)
    → ((x : ℕ) → (x < lo) ⊎ (hi < x) → n x ≡ m x)
    → TextsApart m t lo hi
    → TextsApart n t lo hi
TextsApart-frame m n t lo hi same a = record {
  has_cls = frame_apart m n lo hi t.cls cls_text a.cls_apart same a.has_cls;
  has_help = frame_apart m n lo hi t.help help_text a.help_apart same a.has_help;
  has_ends = frame_apart m n lo hi t.line_ends line_ends_text a.ends_apart same a.has_ends;
  cls_apart = a.cls_apart;
  help_apart = a.help_apart;
  ends_apart = a.ends_apart;
}

-- What a line shows, as the loop finds it.
line_shown :
    (fuel : ℕ) (s : Services) (t : Texts) (m : Mem) (q lo hi : ℕ) (command : List ℕ)
    → HasString m q command
    → TextsApart m t lo hi
    → length command < fuel
    → (if m q == 0 then some [] else exec_line fuel s t m q) ≡ some (shown_by s command)
line_shown fuel s t m q lo hi [] h a lt = rw h refl
line_shown fuel s t m q lo hi (c ∷ command) h a lt =
    let go_on : (m q == 0) ≡ false = ground (arith, h.0, h.1) in
    rw go_on (exec_line-command_output fuel s t m q (c ∷ command) h a.has_cls a.has_help lt)

batch_step :
    (fuel : ℕ) (s : Services) (t : Texts) (m : Mem) (next_token line q : ℕ)
    (shown more : List Output) (token : Token)
    → line ≢ 0
    → space_loop fuel m line ≡ some q
    → (if m q == 0 then some [] else exec_line fuel s t m q) ≡ some shown
    → strtok fuel m next_token 0 t.line_ends ≡ some token
    → batch_loop fuel s t token.mem token.next_token token.start ≡ some more
    → batch_loop (suc fuel) s t m next_token line ≡ some (shown ++ more)
unfolding batch_loop
batch_step fuel s t m next_token line q shown more token there e f g h =
    let not_null : (line == 0) ≡ false = ground arith in rw (not_null, e) (rw f (rw g (rw h refl)))

batch_loop_null :
    (fuel : ℕ) (s : Services) (t : Texts) (m : Mem) (next_token line : ℕ)
    → 0 < fuel
    → line ≡ 0
    → batch_loop fuel s t m next_token line ≡ some []
unfolding batch_loop
batch_loop_null zero s t m next_token line lt e = absurd (omega arith)
batch_loop_null (suc fuel) s t m next_token line lt e = rw e refl

strtok_null :
    (fuel : ℕ) (m : Mem) (next_token delim : ℕ)
    → next_token ≡ 0
    → strtok fuel m next_token 0 delim ≡ some (record { start = 0; next_token = 0; mem = m })
unfolding strtok
strtok_null fuel m next_token delim e = rw e refl

nothing_left : (s : Services) → ◌≡◌ {A = List Output} [] (script_output s (words line_ends_text []))
unfolding script_output words
nothing_left s = refl

module _ (s : Services) (t : Texts) (lo hi : ℕ) (low : 0 < lo) where
  -- The loop at a line `w`, with `rest` behind it.
  pub batch_loop_lem :
      (fuel : ℕ) (m : Mem) (next_token line : ℕ) (w rest : List ℕ)
      → TextsApart m t lo hi
      → line ≢ 0
      → HasString m line w
      → 0 < length w
      → IsRest m hi next_token rest
      → lo + length rest ≤ hi
      → length w + length rest + 4 < fuel
      → batch_loop fuel s t m next_token line
        ≡ some (shown_by s (trim w) ++ script_output s (words line_ends_text rest))
  unfolding script_output
  batch_loop_lem zero m next_token line w rest a there h nonempty left room lt =
      absurd (omega arith)
  batch_loop_lem (suc fuel) m next_token line w rest a there h nonempty left room lt =
      let (q, e, at, le) = space_loop-trim fuel m line w h (omega arith) in
      let shown = line_shown fuel s t m q lo hi (trim w) at a (omega (arith, le)) in
      elim left [
        | inl (ended, none_left) ↦ rw none_left (
            batch_step fuel s t m next_token line q (shown_by s (trim w)) [] _ there e shown
              (strtok_null fuel m next_token t.line_ends ended)
              (batch_loop_null fuel s t m 0 0 (omega arith) refl)
            ∙ ap some (ap (λ more. shown_by s (trim w) ++ more) (nothing_left s)))
        | inr (there', rest_at, ends) ↦
            let (token, f, answer) =
              strtok-Cut m t.line_ends line_ends_text fuel next_token 0 next_token hi rest
                a.has_ends refl (omega arith) rest_at (omega arith) ends in
            batch_step fuel s t m next_token line q (shown_by s (trim w))
              (script_output s (words line_ends_text rest)) token there e shown f
              (elim answer [
                | inl (no_word, ended, same) ↦ rw no_word (
                    batch_loop_null fuel s t token.mem token.next_token token.start (omega arith)
                      ended)
                | inr cut ↦ rw (cut.words_left) (
                    batch_loop_lem fuel token.mem token.next_token token.start cut.w cut.rest
                      (TextsApart-frame m token.mem t lo hi
                        (λ x out. cut.frame x (ground (arith, out))) a)
                      (omega (arith, cut.place)) cut.is_word cut.nonempty cut.is_rest
                      (omega (arith, cut.shorter)) (omega (arith, cut.shorter)))
              ])
      ]

-- The loop of LdrExecBat over a script, begun by strtok on its text at `buf`: with any fuel above its length by 6 it shows and
-- runs what the commands do that are the lines of the text, in order, each without the spaces at its start, and none for a
-- blank line; where the text has no line, nothing.
pub batch_loop-script_output :
    (fuel : ℕ) (s : Services) (t : Texts) (m : Mem) (buf : ℕ) (text : List ℕ)
    → 0 < buf
    → HasString m buf text
    → TextsApart m t buf (buf + length text)
    → length text + 6 < fuel
    → (token : Token) × (strtok fuel m 0 buf t.line_ends ≡ some token)
      × (batch_loop fuel s t token.mem token.next_token token.start
          ≡ some (script_output s (words line_ends_text text)))
unfolding script_output
batch_loop-script_output fuel s t m buf text there h a lt =
    let given : (if buf == 0 then 0 else buf) ≡ buf = ground arith in
    let (token, f, answer) =
      strtok-Cut m t.line_ends line_ends_text fuel 0 buf buf (buf + length text) text a.has_ends
        given (omega arith) h (omega arith) refl in
    (
      token,
      f,
      elim answer [
        | inl (no_word, ended, same) ↦
            rw no_word
              (batch_loop_null fuel s t token.mem token.next_token token.start (omega arith) ended)
        | inr cut ↦ rw (cut.words_left) (
            batch_loop_lem s t buf (buf + length text) there fuel token.mem token.next_token
              token.start cut.w cut.rest
              (TextsApart-frame m token.mem t buf (buf + length text)
                (λ x out. cut.frame x (ground (arith, out))) a)
              (omega (arith, cut.place)) cut.is_word cut.nonempty cut.is_rest
              (omega (arith, cut.shorter)) (omega (arith, cut.shorter)))
      ],
    )
