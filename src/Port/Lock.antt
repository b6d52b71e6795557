-- ===== src/Port/Lock.antt =====
-- accept.c: the lock is held exactly while the port is used, and a client is woken once.
use libre_win.Prelude.{
  ◌⊎◌, ℕ, suc, ◌≡◌, ◌≢◌, refl, Bool, true, false, ◌&&◌, not, arith, ◌==◌, if◌then◌else◌, List, [],
  ◌∷◌, if_prop, ap, ◌∙◌, Bool-cases, inl, inr,
}
use libre_win.Port.{
  Event, lock_port, unlock_port, wake_client, Port, Call, give_handle, link, map_sections, answer,
  locked, nt_accept_connect_port, is_valid_handle, nt_success,
}

-- With the lock held: it is released by the last of the events, and neither taken nor released before.
unfoldable pub ends_section : List Event → Bool
ends_section [] = false
ends_section (unlock_port ∷ []) = true
ends_section (unlock_port ∷ event ∷ events) = false
ends_section (lock_port ∷ events) = false
ends_section (event ∷ events) = ends_section events

-- The lock is taken by the first of the events, released by the last, and neither taken nor released in between.
unfoldable pub is_section : List Event → Bool
is_section (lock_port ∷ events) = ends_section events
is_section events = false

-- How many times the client is woken.
unfoldable pub wakes : List Event → ℕ
wakes [] = 0
wakes (wake_client status ∷ events) = suc (wakes events)
wakes (event ∷ events) = wakes events

is_null : (n : ℕ) → n ≢ 0 → (n == 0) ≡ false
is_null n ne = ground (arith, ne)

once : (n : ℕ) → n ≢ 0 → ◌≡◌ {A = ℕ} (if n == 0 then 0 else 1) 1
once n ne = rw (is_null n ne) refl

-- With the lock held the events release it at the end only, and wake the client `n` times.
Ends : ℕ → ℕ × List Event → Type 0
Ends n (status, events) = (ends_section events ≡ true) × (wakes events ≡ n)

module _ (p : Port) (c : Call) where
  give_handle-Ends : (connection : ℕ) → Ends 0 (give_handle p c connection)
  unfolding give_handle Ends ends_section wakes
  give_handle-Ends connection =
      if_prop (Ends 0) (c.port_handle == 0) _ _ (λ e. (refl, refl))
        (λ e.
          if_prop (Ends 0) (not (is_valid_handle (p.create_handle connection))) _ _
            (λ e. (refl, refl)) (λ e. (refl, refl)))

  link-Ends : (connection : ℕ) → Ends 1 (link p c connection)
  unfolding link Ends ends_section wakes
  link-Ends connection =
      let (held, none_woken) = give_handle-Ends connection in (held, ap suc none_woken)

  map_sections-Ends : (pending connection : ℕ) → Ends 1 (map_sections p c pending connection)
  unfolding map_sections Ends ends_section wakes
  map_sections-Ends pending connection =
      if_prop (Ends 1) (p.requested_section pending == 0) _ _ (λ e. link-Ends connection)
        (λ e.
          if_prop (Ends 1) (not (nt_success (p.section_mappings connection pending))) _ _
            (λ e. (refl, refl)) (λ e. link-Ends connection))

  answer-Ends :
      (port : ℕ)
      → Ends (if p.lookup_pending port c.connection_id == 0 then 0 else 1) (answer p c port)
  unfolding answer Ends ends_section wakes
  answer-Ends port = elim (Bool-cases (p.lookup_pending port c.connection_id == 0)) [
    | inl e ↦ rw e (refl, refl)
    | inr e ↦
        let pending = p.lookup_pending port c.connection_id in
        let connection = p.create_connection port pending in
        rw e (
          if_prop (Ends 1) (not c.accept) _ _ (λ e. (refl, refl))
            (λ e.
              if_prop (Ends 1) (not (nt_success (p.security_checks port pending))) _ _
                (λ e. (refl, refl))
                (λ e.
                  if_prop (Ends 1) (connection == 0) _ _ (λ e. (refl, refl))
                    (λ e. map_sections-Ends pending connection))))
  ]

-- The handle and the pointer to it are there, and the handle names a port.
abbrev pub has_port : Port → Call → Bool
has_port p c =
    not (c.port_handle == 0) && not (c.handle == 0) && not (p.object_from_handle c.handle == 0)

locked-section : (p : Port) (c : Call) (port : ℕ) → is_section (locked p c port).1 ≡ true
unfolding locked is_section ends_section Ends
locked-section p c port =
    if_prop (λ (r : ℕ × List Event). is_section r.1 ≡ true) (c.request == 0) _ _ (λ e. refl)
      (λ e. (answer-Ends p c port).0)

nt_accept_connect_port-locked :
    (p : Port) (c : Call)
    → c.port_handle ≢ 0
    → c.handle ≢ 0
    → p.object_from_handle c.handle ≢ 0
    → nt_accept_connect_port p c ≡ locked p c (p.object_from_handle c.handle)
unfolding nt_accept_connect_port
nt_accept_connect_port-locked p c some_handle valid some_port =
    rw
      (
        is_null c.port_handle some_handle,
        is_null c.handle valid,
        is_null (p.object_from_handle c.handle) some_port,
      )
      refl

-- Whatever the functions answer: where the handle names a port, the port is locked once, before anything is done, and
-- unlocked once, after everything, on every way out; otherwise nothing is done.
pub nt_accept_connect_port-lock :
    (p : Port) (c : Call)
    → ((has_port p c ≡ true) × (is_section (nt_accept_connect_port p c).1 ≡ true))
      ⊎ ((has_port p c ≡ false) × ((nt_accept_connect_port p c).1 ≡ []))
unfolding nt_accept_connect_port
nt_accept_connect_port-lock p c =
    let port = p.object_from_handle c.handle in
    elim (Bool-cases (c.port_handle == 0)) [
      | inl e ↦ inr (rw e refl, rw e refl)
      | inr e ↦ elim (Bool-cases (c.handle == 0)) [
        | inl e' ↦ inr (rw (e, e') refl, rw (e, e') refl)
        | inr e' ↦ elim (Bool-cases (port == 0)) [
          | inl e'' ↦ inr (rw (e, e', e'') refl, rw (e, e', e'') refl)
          | inr e'' ↦ inl (
            rw (e, e', e'') refl,
            ap (λ (r : ℕ × List Event). is_section r.1)
                  (nt_accept_connect_port-locked p c (ground arith) (ground arith) (ground arith))
                ∙ locked-section p c port,
          )
        ]
      ]
    ]

locked-wakes :
    (p : Port) (c : Call) (port : ℕ)
    → c.request ≢ 0
    → wakes (locked p c port).1 ≡ wakes (answer p c port).1
unfolding locked wakes
locked-wakes p c port some_request = rw (is_null c.request some_request) refl

-- A call with a valid handle and a request that is found wakes the client exactly once, on every way out.
pub nt_accept_connect_port-wakes :
    (p : Port) (c : Call)
    → c.port_handle ≢ 0
    → c.handle ≢ 0
    → p.object_from_handle c.handle ≢ 0
    → c.request ≢ 0
    → p.lookup_pending (p.object_from_handle c.handle) c.connection_id ≢ 0
    → wakes (nt_accept_connect_port p c).1 ≡ 1
unfolding Ends
nt_accept_connect_port-wakes p c some_handle valid some_port some_request pending =
    let port = p.object_from_handle c.handle in
    ap (λ (r : ℕ × List Event). wakes r.1)
      (nt_accept_connect_port-locked p c some_handle valid some_port)
    ∙ locked-wakes p c port some_request
    ∙ (answer-Ends p c port).1
    ∙ once (p.lookup_pending port c.connection_id) pending

always_success : (status : ℕ) → nt_success status ≡ true
always_success status = ground arith

-- The answer of the security check never matters: any other check leads to the same status and the same events.
pub nt_accept_connect_port-security_checks :
    (p : Port) (c : Call) (checks : ℕ → ℕ → ℕ)
    → nt_accept_connect_port p c ≡ nt_accept_connect_port (record p { security_checks = checks }) c
unfolding nt_accept_connect_port locked answer map_sections link give_handle
nt_accept_connect_port-security_checks p c checks =
    let port = p.object_from_handle c.handle in
    let pending = p.lookup_pending port c.connection_id in
    rw (always_success (p.security_checks port pending), always_success (checks port pending)) refl
