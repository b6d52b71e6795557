-- ===== src/Keyboard/Line.antt =====
-- The keyboard handler of idt.c is a line editor: the buffer holds the keys of the line, at most 255 of them.
use libre_win.Prelude.{
  ℕ, zero, suc, ◌+◌, ◌-◌, ◌≤◌, ◌<◌, ◌≡◌, refl, ◌&&◌, not, ◌⊎◌, inl, inr, arith, ltb, ◌==◌,
  if◌then◌else◌, none, some, List, [], ◌∷◌, length, if_rel,
}
use libre_win.Memory.{Mem, write}
use libre_win.Keyboard.{Keyboard, Effect, set_exec_buffer, outb, on_key, kb, entry, int21h_handler}

-- A line of input, the last key first.
-- The buffer holds the line from index 0 on.
unfoldable pub Holds : Mem → List ℕ → Type 0
Holds m [] = Unit
Holds m (c ∷ line) = (m (length line) ≡ c) × Holds m line

-- The state of the handler whose line is `line`.
unfoldable pub HasLine : Keyboard → List ℕ → Type 0
HasLine s line = (s.input_pos ≡ length line) × (length line ≤ 255) × Holds s.input_buffer line

unfoldable pub drop_key : List ℕ → List ℕ
drop_key [] = []
drop_key (c ∷ line) = line

-- What a key does to a line. A backspace on an empty line is a key like any other.
unfoldable pub edit : List ℕ → ℕ → List ℕ
unfolding drop_key
edit line key =
    if (key == 8) && ltb 0 (length line)
    then drop_key line
    else if key == 10
    then []
    else if not (key == 0) && ltb (length line) (256 - 1)
    then key ∷ line
    else line

Holds-write :
    (m : Mem) (line : List ℕ) (k v : ℕ) → length line ≤ k → Holds m line → Holds (write m k v) line
unfolding Holds write
Holds-write m [] k v h hm = tt
Holds-write m (c ∷ line) k v h hm = (ground arith, Holds-write m line k v (omega arith) hm.1)

backspace :
    (m : Mem) (line : List ℕ) (pos : ℕ)
    → pos + 1 ≡ length line
    → length line ≤ 255
    → Holds m line
    → HasLine (record { input_buffer = write m pos 0; input_pos = pos }) (drop_key line)
unfolding HasLine Holds drop_key
backspace m [] pos e bound hm = ground arith
backspace m (x ∷ line) pos e bound hm =
    (omega arith, omega arith, Holds-write m line pos 0 (omega arith) hm.1)

-- Where the buffer and the position hold a line of at most 255 keys, they hold the edited line after any key.
pub on_key-HasLine :
    (s : Keyboard) (line : List ℕ) (key : ℕ)
    → HasLine s line
    → HasLine (on_key s key).1 (edit line key)
unfolding on_key edit HasLine Holds write
on_key-HasLine s line key (e, bound, hm) = rw e (
    if_rel (λ (r : List Effect × Keyboard) l. HasLine r.1 l) ((key == 8) && ltb 0 (length line)) _ _
      _ _ (λ c. backspace s.input_buffer line (length line - 1) (ground arith) bound hm)
      (λ c.
        if_rel (λ (r : List Effect × Keyboard) l. HasLine r.1 l) (key == 10) _ _ _ _
          (λ c. (refl, omega arith, tt))
          (λ c.
            if_rel (λ (r : List Effect × Keyboard) l. HasLine r.1 l)
              (not (key == 0) && ltb (length line) (256 - 1)) _ _ _ _
              (λ c. (
                ground arith,
                ground arith,
                (ground arith, Holds-write s.input_buffer line (length line) key (omega arith) hm),
              ))
              (λ c. (refl, bound, hm)))))

entry_lem :
    (xs : List ℕ) (i : ℕ)
    → ((length xs ≤ i) × (entry xs i ≡ none))
      ⊎ ((i < length xs) × ((key : ℕ) × (entry xs i ≡ some key)))
unfolding entry
entry_lem [] i = inl (omega arith, refl)
entry_lem (x ∷ xs) zero = inr (omega arith, (x, refl))
entry_lem (x ∷ xs) (suc i) = elim (entry_lem xs i) [
  | inl (h, e) ↦ inl (omega arith, e)
  | inr (h, found) ↦ inr (omega arith, found)
]

-- Where the buffer holds a line of at most 255 keys, a scancode below 71 has a key, by which the handler edits
-- the line; on a scancode from 71 on the handler reads past the table of keys.
pub int21h_handler_lem :
    (s : Keyboard) (line : List ℕ) (scancode : ℕ)
    → HasLine s line
    → ((71 ≤ scancode) × (int21h_handler s scancode ≡ none))
      ⊎ ((scancode < 71)
          × (key : ℕ) × (effects : List Effect) × (s' : Keyboard) × (entry kb scancode ≡ some key)
          × (int21h_handler s scancode ≡ some (effects, s'))
          × HasLine s' (edit line key))
unfolding int21h_handler kb
int21h_handler_lem s line scancode h = elim (entry_lem kb scancode) [
  | inl (far, e) ↦ inl (far, rw e refl)
  | inr (near, (key, e)) ↦
      inr (near, key, (on_key s key).0, (on_key s key).1, e, rw e refl, on_key-HasLine s line key h)
]

-- Where the buffer holds a line, enter hands it on, with a zero behind its last key, and starts an empty line.
pub on_key_enter :
    (s : Keyboard) (line : List ℕ)
    → HasLine s line
    → (buffer : Mem) × (on_key s 10 ≡ (
      set_exec_buffer buffer ∷ outb 0x20 0x20 ∷ [],
      record { input_buffer = buffer; input_pos = 0 },
    ))
      × Holds buffer line
      × (buffer (length line) ≡ 0)
unfolding on_key HasLine write
on_key_enter s line (e, bound, hm) = (
  write s.input_buffer s.input_pos 0,
  refl,
  rw e (Holds-write s.input_buffer line (length line) 0 (omega arith) hm),
  ground (arith, write),
)
