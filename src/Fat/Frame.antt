-- ===== src/Fat/Frame.antt =====
-- fat16.c: what holds of every result of an operation that may fail, and what a read leaves as it was.
use libre_win.Prelude.{
  ℕ, zero, suc, ◌-◌, ◌/◌, ◌≡◌, refl, ◌∙◌, Bool, true, false, ltb, ◌==◌, if◌then◌else◌, Option, none,
  some,
}
use libre_win.Prelude.Int.{ℤ, pos}
use libre_win.Config.{is_neg}
use libre_win.Memory.{Mem}
use libre_win.Stream.{Drive}
use libre_win.Fat.{
  chain, Fat, diskstreamer_seek, read_memory, read_variable, fat_entry_position,
  fat16_get_fat_entry, cluster_loop, fat16_get_cluster_for_offset, fat16_read_internal_from_stream,
  fat16_read_internal, is_mark, size_of_cluster_bytes,
}
use libre_win.Fat.File.{members_loop, fat16_read}

-- `P` holds of the result, where there is one.
abbrev pub Gives : {A : Type 0} → Option A → (A → Type 0) → Type 0
Gives none P = true ≡ true
Gives (some a) P = P a

pub chain-Gives :
    {A B : Type 0} (o : Option A) (g : A → Option B) (P : A → Type 0) (Q : B → Type 0)
    → Gives o P
    → ((a : A) → P a → Gives (g a) Q)
    → Gives (chain o g) Q
unfolding chain
chain-Gives none g P Q h k = refl
chain-Gives (some a) g P Q h k = k a h

pub gives_any : {A : Type 0} (o : Option A) → Gives o (λ _. true ≡ true)
gives_any none = refl
gives_any (some a) = refl

pub if-Gives :
    {A : Type 0} (b : Bool) (x y : Option A) (P : A → Type 0)
    → Gives x P
    → Gives y P
    → Gives (if b then x else y) P
if-Gives true x y P hx hy = hx
if-Gives false x y P hx hy = hy

-- Only bytes of the memory and positions of streams may differ.
abbrev pub Kept : Fat → Fat → Type 0
Kept f g =
    (g.kernel.kernel_heap ≡ f.kernel.kernel_heap)
    × (g.private_data ≡ f.private_data)
    × (g.directories ≡ f.directories)
    × (g.items ≡ f.items)
    × (g.descriptors ≡ f.descriptors)

Kept-self : (f : Fat) → Kept f f
Kept-self f = (refl, refl, refl, refl, refl)

Kept-trans : (f g h : Fat) → Kept f g → Kept g h → Kept f h
Kept-trans f g h (a, b, c, i, e) (a', b', c', i', e') = (a' ∙ a, b' ∙ b, c' ∙ c, i' ∙ i, e' ∙ e)

pub Gives-map :
    {A : Type 0} (o : Option A) (P Q : A → Type 0) → ((a : A) → P a → Q a) → Gives o P → Gives o Q
Gives-map none P Q h p = refl
Gives-map (some a) P Q h p = h a p

module _ (d : Drive) where
  read_memory-Kept :
      (f : Fat) (stream out total : ℕ) → Gives (read_memory d f stream out total) (λ g. Kept f g)
  unfolding read_memory
  read_memory-Kept f stream out total =
      chain-Gives _ _ (λ _. true ≡ true) (λ g. Kept f g) (gives_any _)
        (λ (r : ℕ × Mem) _. (refl, refl, refl, refl, refl))

  read_variable-Kept :
      (f : Fat) (stream total : ℕ)
      → Gives (read_variable d f stream total) (λ (r : Mem × Fat). Kept f r.1)
  unfolding read_variable
  read_variable-Kept f stream total =
      chain-Gives _ _ (λ _. true ≡ true) (λ (r : Mem × Fat). Kept f r.1) (gives_any _)
        (λ (r : ℕ × Mem) _. (refl, refl, refl, refl, refl))

  fat16_get_fat_entry-Kept :
      (f : Fat) (cluster : ℤ)
      → Gives (fat16_get_fat_entry d f cluster) (λ (r : ℤ × Fat). Kept f r.1)
  unfolding fat16_get_fat_entry diskstreamer_seek
  fat16_get_fat_entry-Kept f cluster =
      if-Gives (f.private_data.fat_read_stream == 0) _ _ (λ (r : ℤ × Fat). Kept f r.1) (Kept-self f)
        (chain-Gives _ _ (λ (r : Mem × Fat). Kept f r.1) (λ (r : ℤ × Fat). Kept f r.1)
          (read_variable-Kept
            (diskstreamer_seek f f.private_data.fat_read_stream
              (fat_entry_position f.private_data cluster))
            f.private_data.fat_read_stream 2)
          (λ (r : Mem × Fat) k. k))

  cluster_loop-Kept :
      (left : ℕ) (f : Fat) (cluster : ℤ)
      → Gives (cluster_loop d left f cluster) (λ (r : ℤ × Fat). Kept f r.1)
  unfolding cluster_loop
  cluster_loop-Kept zero f cluster = Kept-self f
  cluster_loop-Kept (suc left) f cluster =
      chain-Gives _ _ (λ (r : ℤ × Fat). Kept f r.1) (λ (r : ℤ × Fat). Kept f r.1)
        (fat16_get_fat_entry-Kept f cluster)
        (λ (r : ℤ × Fat) k.
          if-Gives (is_mark r.0) _ _ (λ (r : ℤ × Fat). Kept f r.1) k
            (Gives-map _ (λ (s : ℤ × Fat). Kept r.1 s.1) (λ (s : ℤ × Fat). Kept f s.1)
              (λ (s : ℤ × Fat) k'. Kept-trans f r.1 s.1 k k') (cluster_loop-Kept left r.1 r.0)))

  fat16_get_cluster_for_offset-Kept :
      (f : Fat) (cluster : ℤ) (offset : ℕ)
      → Gives (fat16_get_cluster_for_offset d f cluster offset) (λ (r : ℤ × Fat). Kept f r.1)
  unfolding fat16_get_cluster_for_offset
  fat16_get_cluster_for_offset-Kept f cluster offset =
      if-Gives (size_of_cluster_bytes f.private_data == 0) _ _ (λ (r : ℤ × Fat). Kept f r.1) refl
        (cluster_loop-Kept (offset / size_of_cluster_bytes f.private_data) f cluster)

  from_stream-Kept :
      (fuel : ℕ) (f : Fat) (stream : ℕ) (cluster : ℤ) (offset total out : ℕ)
      → Gives
          (fat16_read_internal_from_stream d fuel f stream cluster offset total out)
          (λ (r : ℤ × Fat). Kept f r.1)
  unfolding fat16_read_internal_from_stream diskstreamer_seek
  from_stream-Kept zero f stream cluster offset total out = refl
  from_stream-Kept (suc fuel) f stream cluster offset total out =
      chain-Gives _ _ (λ (r : ℤ × Fat). Kept f r.1) (λ (r : ℤ × Fat). Kept f r.1)
        (fat16_get_cluster_for_offset-Kept f cluster offset)
        (λ (r : ℤ × Fat) k.
          if-Gives (is_neg r.0) _ _ (λ (s : ℤ × Fat). Kept f s.1) k
            (chain-Gives _ _ (λ (g : Fat). Kept r.1 g) (λ (s : ℤ × Fat). Kept f s.1)
              (read_memory-Kept (diskstreamer_seek r.1 stream _) stream out _)
              (λ (g : Fat) k'.
                if-Gives (ltb 0 (total - _)) _ _ (λ (s : ℤ × Fat). Kept f s.1)
                  (Gives-map _ (λ (s : ℤ × Fat). Kept g s.1) (λ (s : ℤ × Fat). Kept f s.1)
                    (λ (s : ℤ × Fat) k''. Kept-trans f g s.1 (Kept-trans f r.1 g k k') k'')
                    (from_stream-Kept fuel g stream cluster _ _ _))
                  (Kept-trans f r.1 g k k'))))

  members_loop-Kept :
      (fuel left : ℕ) (f : Fat) (item offset size out_ptr : ℕ) (done : ℤ)
      → Gives
          (members_loop d fuel left f item offset size out_ptr done)
          (λ (r : ℤ × Fat). Kept f r.1)
  unfolding members_loop fat16_read_internal
  members_loop-Kept fuel zero f item offset size out_ptr done = Kept-self f
  members_loop-Kept fuel (suc left) f item offset size out_ptr done =
      chain-Gives _ _ (λ (r : ℤ × Fat). Kept f r.1) (λ (r : ℤ × Fat). Kept f r.1)
        (from_stream-Kept fuel f _ _ offset size out_ptr)
        (λ (r : ℤ × Fat) k.
          if-Gives (is_neg r.0) _ _ (λ (r : ℤ × Fat). Kept f r.1) k
            (Gives-map _ (λ (s : ℤ × Fat). Kept r.1 s.1) (λ (s : ℤ × Fat). Kept f s.1)
              (λ (s : ℤ × Fat) k'. Kept-trans f r.1 s.1 k k')
              (members_loop-Kept fuel left r.1 item _ size _ done)))

  -- A read leaves the driver's structures as they were, the descriptor with its position included: only bytes of the
  -- memory and positions of streams may differ. So the next read of the file starts at the same place.
  pub fat16_read-Kept :
      (fuel : ℕ) (f : Fat) (descriptor size nmemb out_ptr : ℕ)
      → Gives (fat16_read d fuel f descriptor size nmemb out_ptr) (λ (r : ℤ × Fat). Kept f r.1)
  unfolding fat16_read
  fat16_read-Kept fuel f descriptor size nmemb out_ptr =
      members_loop-Kept fuel nmemb f _ _ size out_ptr (pos nmemb)
