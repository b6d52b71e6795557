-- ===== src/Ntdll/Query.antt =====
-- ntdll.c: what NtQuerySystemInformation answers for each class, and what it writes.
use libre_win.Prelude.{
  ℕ, zero, suc, ◌+◌, ◌*◌, ◌^◌, ◌≤◌, ◌<◌, ◌≡◌, ◌⊎◌, refl, ◌∙◌, arith, false, ltb, ◌==◌,
  if◌then◌else◌, if_prop, List, [], ◌∷◌, length, inl, inr,
}
use libre_win.Config.{u32}
use libre_win.Memory.{Mem, write, memset}
use libre_win.Memory.Laws.{memset_lem}
use libre_win.Memory.Words.{load32, store32, store32_frame, load32-store32}
use libre_win.Str.Copy.{SameOutside}
use libre_win.Ntdll.Print.{system_print_lem}
use libre_win.Ntdll.{
  InformationClass, exceptions, leap_second, lookaside, code_integrity, va_shadow, performance,
  interrupts, policy, processes, processor_performance, performance_counter, registry_quota,
  speculation, time_of_day, other, class_of, Message, Answer, Machine, mismatch, success, store16,
  store64, processors_loop, process_entry, time_entry, query_class, put_wide, print_message,
  system_print, nt_query_system_information, status_success,
}

module _ (m : Mem) (p len : ℕ) where
  none_changed : SameOutside m m p len
  none_changed x out = refl

  store32_inside :
      (n : Mem) (a v : ℕ)
      → p ≤ a
      → a + 4 ≤ p + len
      → SameOutside m n p len
      → SameOutside m (store32 n a v) p len
  store32_inside n a v low high same x out =
      store32_frame n a v x (ground (arith, out)) ∙ same x out

  store64_inside :
      (n : Mem) (a v : ℕ)
      → p ≤ a
      → a + 8 ≤ p + len
      → SameOutside m n p len
      → SameOutside m (store64 n a v) p len
  store64_inside n a v low high same =
      store32_inside _ (a + 4) _ (omega arith) (omega arith)
        (store32_inside n a _ low (omega arith) same)

  store16_inside :
      (n : Mem) (a v : ℕ)
      → p ≤ a
      → a + 2 ≤ p + len
      → SameOutside m n p len
      → SameOutside m (store16 n a v) p len
  unfolding write
  store16_inside n a v low high same x out = ground (arith, out, same x out)

  memset_inside : (size : ℕ) → size ≤ len → SameOutside m (memset m p 0 size) p len
  memset_inside size le x out = ground (arith, memset_lem m p 0 size x, out)

  processors_inside :
      (left i : ℕ) (n : Mem)
      → 48 * (i + left) ≤ len
      → SameOutside m n p len
      → SameOutside m (processors_loop left i p n) p len
  unfolding processors_loop
  processors_inside zero i n fits same = same
  processors_inside (suc left) i n fits same = processors_inside left (i + 1) _ (omega arith) (
      store32_inside _ (p + 48 * i + 40) _ (omega arith) (omega arith) (
        store64_inside _ (p + 48 * i + 32) _ (omega arith) (omega arith) (
          store64_inside _ (p + 48 * i + 24) _ (omega arith) (omega arith) (
            store64_inside _ (p + 48 * i + 16) _ (omega arith) (omega arith) (
              store64_inside _ (p + 48 * i + 8) _ (omega arith) (omega arith)
                (store64_inside n (p + 48 * i) _ (omega arith) (omega arith) same))))))

  process_entry-inside : (name : ℕ) → 32 ≤ len → SameOutside m (process_entry m p name) p len
  process_entry-inside name fits = store16_inside _ (p + 26) 34 (omega arith) (omega arith) (
      store16_inside _ (p + 24) 32 (omega arith) (omega arith) (
        store32_inside _ (p + 28) name (omega arith) (omega arith) (
          store64_inside _ (p + 16) 1 (omega arith) (omega arith) (
            store32_inside _ (p + 8) 1 (omega arith) (omega arith) (
              store32_inside _ (p + 4) 1234 (omega arith) (omega arith)
                (store32_inside m p 0 (omega arith) (omega arith) none_changed))))))

  time_entry-inside : 40 ≤ len → SameOutside m (time_entry m p) p len
  time_entry-inside fits = store32_inside _ (p + 36) 0 (omega arith) (omega arith) (
      store32_inside _ (p + 32) 0 (omega arith) (omega arith) (
        store32_inside _ (p + 28) 0 (omega arith) (omega arith) (
          store32_inside _ (p + 24) 0 (omega arith) (omega arith) (
            store64_inside _ (p + 16) 0 (omega arith) (omega arith) (
              store64_inside _ (p + 8) 1324560000000000 (omega arith) (omega arith)
                (store64_inside m p 1324567890123456 (omega arith) (omega arith) none_changed))))))

  performance-inside :
      296 ≤ len
      → SameOutside m
          (store32 (store32 (store64 (memset m p 0 296) p 12345678) (p + 60) 42) (p + 44) 8192)
          p
          len
  performance-inside fits = store32_inside _ (p + 44) 8192 (omega arith) (omega arith) (
      store32_inside _ (p + 60) 42 (omega arith) (omega arith)
        (store64_inside _ p 12345678 (omega arith) (omega arith) (memset_inside 296 fits)))

put_wide-frame :
    (m : Mem) (a : ℕ) (cs : List ℕ) (x : ℕ)
    → (x < a) ⊎ (a + 2 * length cs ≤ x)
    → put_wide m a cs x ≡ m x
unfolding put_wide write
put_wide-frame m a [] x out = refl
put_wide-frame m a (c ∷ cs) x out =
    put_wide-frame (store16 m a c) (a + 2) cs x (ground (arith, out)) ∙ ground (arith, out)

-- A message stays in the 1024 bytes of its buffer.
print_message-frame :
    (k : Machine) (shown : Message) (m : Mem) (x : ℕ)
    → (x < k.fname_buffer) ⊎ (k.fname_buffer + 1024 ≤ x)
    → print_message k shown m x ≡ m x
unfolding print_message
print_message-frame k shown m x out =
    let (n, _, _, _, fits) =
      system_print_lem 1024 (k.characters shown) refl (omega arith) (omega arith) in
    put_wide-frame m k.fname_buffer (system_print 1024 (k.characters shown)).0 x
      (ground (arith, out, fits))

-- Nothing changes but in the caller's buffer, in `fname_buffer` and in the word for the length.
abbrev pub Keeps : Machine → Mem → ℕ → ℕ → ℕ → Answer → Type 0
Keeps k m info len ret a =
    (x : ℕ)
    → (x < info) ⊎ (info + len ≤ x)
    → (x < ret) ⊎ (ret + 4 ≤ x)
    → (x < k.fname_buffer) ⊎ (k.fname_buffer + 1024 ≤ x)
    → a.mem x ≡ m x

module _ (k : Machine) (m : Mem) (info len ret : ℕ) where
  success-Keeps :
      (n : Mem) (size : ℕ) (shown : Message)
      → SameOutside m n info len
      → Keeps k m info len ret (success k n ret size shown)
  success-Keeps n size shown same x out apart away =
      let kept = print_message-frame k shown n x away ∙ same x out in
      if_prop (λ (m' : Mem). m' x ≡ m x) (ret == 0) _ _ (λ _. kept)
        (λ _. store32_frame (print_message k shown n) ret size x apart ∙ kept)

  guarded-Keeps :
      (least : ℕ) (n : Mem) (size : ℕ) (shown : Message)
      → (least ≤ len → SameOutside m n info len)
      → Keeps k m info len ret (if ltb len least then mismatch m else success k n ret size shown)
  guarded-Keeps least n size shown same =
      if_prop (Keeps k m info len ret) (ltb len least) _ _ (λ _ x out apart away. refl)
        (λ big. success-Keeps n size shown (same (ground arith)))

  query_class-Keeps :
      (c : InformationClass) (n : ℕ)
      → k.processors * 48 < 2 ^ 32
      → Keeps k m info len ret (query_class k c n m info len ret)
  unfolding query_class
  query_class-Keeps exceptions n few = guarded-Keeps 16 m 16 _ (λ fits. none_changed m info len)
  query_class-Keeps leap_second n few = guarded-Keeps 16 m 16 _ (λ fits. none_changed m info len)
  query_class-Keeps lookaside n few = success-Keeps m 0 _ (none_changed m info len)
  query_class-Keeps code_integrity n few = guarded-Keeps 8 _ 8 _ (λ fits.
      store32_inside m info len _ (info + 4) _ (omega arith) (omega arith)
        (store32_inside m info len m info 8 (omega arith) (omega arith) (none_changed m info len)))
  query_class-Keeps va_shadow n few = guarded-Keeps 4 _ 4 _ (λ fits.
      store32_inside m info len m info _ (omega arith) (omega arith) (none_changed m info len))
  query_class-Keeps performance n few = guarded-Keeps 296 _ 296 _ (performance-inside m info len)
  query_class-Keeps interrupts n few = success-Keeps m 24 _ (none_changed m info len)
  query_class-Keeps policy n few = guarded-Keeps 16 _ 16 _ (memset_inside m info len 16)
  query_class-Keeps processes n few =
      guarded-Keeps 32 _ 32 _ (process_entry-inside m info len k.dummy_name)
  query_class-Keeps processor_performance n few =
      guarded-Keeps (u32 (k.processors * 48)) _ _ _ (λ fits.
        processors_inside m info len k.processors 0 m (omega arith) (none_changed m info len))
  query_class-Keeps performance_counter n few = guarded-Keeps 16 _ 16 _ (λ fits.
      store64_inside m info len _ (info + 8) 10000000 (omega arith) (omega arith) (
        store64_inside m info len m info 1234567890 (omega arith) (omega arith)
          (none_changed m info len)))
  query_class-Keeps registry_quota n few = guarded-Keeps 16 _ 16 _ (memset_inside m info len 16)
  query_class-Keeps speculation n few = guarded-Keeps 4 _ 4 _ (λ fits.
      store32_inside m info len m info _ (omega arith) (omega arith) (none_changed m info len))
  query_class-Keeps time_of_day n few = guarded-Keeps 40 _ 40 _ (time_entry-inside m info len)
  query_class-Keeps other n few = λ x out apart away. print_message-frame k _ m x away

-- Whatever the class and the lengths, NtQuerySystemInformation changes no byte outside the caller's buffer of the given
-- length, the word for the returned length and the 1024 bytes of `fname_buffer`, if the entries of the processors have less than 4 GB.
pub nt_query_system_information-Keeps :
    (k : Machine) (n : ℕ) (m : Mem) (info len ret : ℕ)
    → k.processors * 48 < 2 ^ 32
    → Keeps k m info len ret (nt_query_system_information k n m info len ret)
unfolding nt_query_system_information
nt_query_system_information-Keeps k n m info len ret few =
    if_prop (Keeps k m info len ret) (info == 0) _ _ (λ _ x out apart away. refl)
      (λ _. query_class-Keeps k m info len ret (class_of n) n few)

-- A success tells a length that the buffer has, but for the class of the interrupts, where it tells 24.
abbrev pub TellsLength : InformationClass → ℕ → ℕ → Answer → Type 0
TellsLength c len ret a =
    a.status ≡ status_success
    → (load32 a.mem ret ≤ len) ⊎ ((c ≡ interrupts) × (load32 a.mem ret ≡ 24))

module _ (k : Machine) (m : Mem) (len ret : ℕ) (there : 0 < ret) where
  success_length :
      (n : Mem) (size : ℕ) (shown : Message)
      → size < 2 ^ 32
      → load32 (success k n ret size shown).mem ret ≡ size
  success_length n size shown small =
      let given : (ret == 0) ≡ false = ground arith in
      rw given (load32-store32 (print_message k shown n) ret size small)

  success-TellsLength :
      (c : InformationClass) (n : Mem) (size : ℕ) (shown : Message)
      → size < 2 ^ 32
      → size ≤ len
      → TellsLength c len ret (success k n ret size shown)
  success-TellsLength c n size shown small fits done =
      inl (omega (arith, success_length n size shown small))

  guarded-TellsLength :
      (c : InformationClass) (least : ℕ) (n : Mem) (size : ℕ) (shown : Message)
      → size < 2 ^ 32
      → size ≤ least
      → TellsLength c len ret (if ltb len least then mismatch m else success k n ret size shown)
  guarded-TellsLength c least n size shown small le =
      if_prop (TellsLength c len ret) (ltb len least) _ _ (λ _ done. absurd (omega (arith, done)))
        (λ big. success-TellsLength c n size shown small (ground arith))

  query_class-TellsLength :
      (info : ℕ) (c : InformationClass) (n : ℕ)
      → TellsLength c len ret (query_class k c n m info len ret)
  unfolding query_class
  query_class-TellsLength info exceptions n =
      guarded-TellsLength exceptions 16 m 16 _ (omega arith) (omega arith)
  query_class-TellsLength info leap_second n =
      guarded-TellsLength leap_second 16 m 16 _ (omega arith) (omega arith)
  query_class-TellsLength info lookaside n =
      success-TellsLength lookaside m 0 _ (omega arith) (omega arith)
  query_class-TellsLength info code_integrity n =
      guarded-TellsLength code_integrity 8 _ 8 _ (omega arith) (omega arith)
  query_class-TellsLength info va_shadow n =
      guarded-TellsLength va_shadow 4 _ 4 _ (omega arith) (omega arith)
  query_class-TellsLength info performance n =
      guarded-TellsLength performance 296 _ 296 _ (omega arith) (omega arith)
  query_class-TellsLength info interrupts n =
      λ done. inr (refl, success_length m 24 _ (omega arith))
  query_class-TellsLength info policy n =
      guarded-TellsLength policy 16 _ 16 _ (omega arith) (omega arith)
  query_class-TellsLength info processes n =
      guarded-TellsLength processes 32 _ 32 _ (omega arith) (omega arith)
  query_class-TellsLength info processor_performance n =
      guarded-TellsLength processor_performance (u32 (k.processors * 48)) _ _ _ (omega arith)
        (omega arith)
  query_class-TellsLength info performance_counter n =
      guarded-TellsLength performance_counter 16 _ 16 _ (omega arith) (omega arith)
  query_class-TellsLength info registry_quota n =
      guarded-TellsLength registry_quota 16 _ 16 _ (omega arith) (omega arith)
  query_class-TellsLength info speculation n =
      guarded-TellsLength speculation 4 _ 4 _ (omega arith) (omega arith)
  query_class-TellsLength info time_of_day n =
      guarded-TellsLength time_of_day 40 _ 40 _ (omega arith) (omega arith)
  query_class-TellsLength info other n = λ done. absurd (omega (arith, done))

-- Where a word for the length is given and NtQuerySystemInformation succeeds, the length told there is at most that of the
-- caller's buffer, but for the class of the interrupts, where 24 is told for any buffer.
pub nt_query_system_information-TellsLength :
    (k : Machine) (n : ℕ) (m : Mem) (info len ret : ℕ)
    → 0 < ret
    → (nt_query_system_information k n m info len ret).status ≡ status_success
    → (load32 (nt_query_system_information k n m info len ret).mem ret ≤ len)
      ⊎ ((class_of n ≡ interrupts)
          × (load32 (nt_query_system_information k n m info len ret).mem ret ≡ 24))
unfolding nt_query_system_information
nt_query_system_information-TellsLength k n m info len ret there =
    if_prop (TellsLength (class_of n) len ret) (info == 0) _ _
      (λ _ done. absurd (omega (arith, done)))
      (λ _. query_class-TellsLength k m len ret there info (class_of n) n)
