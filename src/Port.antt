-- ===== src/Port.antt =====
-- librewin/base/txos/ke/port/accept.c: a server's answer to a connection request. A pointer is a number, 0 the null
-- pointer. What the handshake does is a trace of events, in order; what it asks is an interface, of which the
-- functions of the file are one implementation, `stubs`.
pub mod Lock
mod Tests
use libre_win.Prelude.{
  ℕ, zero, suc, ◌+◌, Bool, true, false, ◌&&◌, not, leb, ◌==◌, if◌then◌else◌, Option, none, some,
  List, [], ◌∷◌, ◌++◌,
}

-- The status codes of ke/basetsd.h
abbrev pub status_success : ℕ
status_success = 0

abbrev pub status_invalid_parameter : ℕ
status_invalid_parameter = 0xC000000D

abbrev pub status_insufficient_resources : ℕ
status_insufficient_resources = 0xC000009A

abbrev pub status_connection_refused : ℕ
status_connection_refused = 0xC0000236

-- CONNECTION_ACCEPTED and CONNECTION_REFUSED
abbrev pub connection_accepted : ℕ
connection_accepted = 1

abbrev pub connection_refused : ℕ
connection_refused = 2

pub data Event : Type 0 where
  lock_port : Event
  unlock_port : Event
  remove_pending : Event
  set_state : ℕ → Event
  wake_client : ℕ → Event
  deref_and_free : Event
  destroy_connection : Event
  set_context : ℕ → Event
  link_connection : Event
  unlink_connection : Event
  put_handle : ℕ → Event

-- NTSTATUS is an unsigned type, and the macro tests that it is at least 0.
abbrev pub nt_success : ℕ → Bool
nt_success status = leb 0 status

abbrev pub is_valid_handle : ℕ → Bool
is_valid_handle h = not (h == 0) && not (h == 0)

-- The answers of the functions that the handshake asks; `requested_section` is a field of the request.
pub record Port : Type 0 where
  pub object_from_handle : ℕ → ℕ
  pub lookup_pending : ℕ → ℕ → ℕ
  pub requested_section : ℕ → ℕ
  pub security_checks : ℕ → ℕ → ℕ
  pub create_connection : ℕ → ℕ → ℕ
  pub section_mappings : ℕ → ℕ → ℕ
  pub create_handle : ℕ → ℕ

-- The functions of the file: its request and its connection stand at the given addresses.
unfoldable pub stubs : ℕ → ℕ → Port
stubs pending connection = record {
  object_from_handle = λ h. 0x1000;
  lookup_pending = λ port id. pending;
  requested_section = λ request. 0;
  security_checks = λ port request. status_success;
  create_connection = λ port request. connection;
  section_mappings = λ connection request. status_success;
  create_handle = λ connection. 0x1001;
}

-- The arguments of the call: `port_handle` is the pointer and `handle` what it points to; `request` is the
-- pointer, and `connection_id` the field of what it points to.
pub record Call : Type 0 where
  pub port_handle : ℕ
  pub handle : ℕ
  pub port_context : ℕ
  pub request : ℕ
  pub connection_id : ℕ
  pub accept : Bool

-- After the connection is linked: the handle for the server.
pub give_handle : Port → Call → ℕ → ℕ × List Event
give_handle p c connection =
    if c.port_handle == 0
    then (status_success, unlock_port ∷ [])
    else (let h = p.create_handle connection in
        if not (is_valid_handle h)
        then (
          status_insufficient_resources,
          unlink_connection ∷ destroy_connection ∷ unlock_port ∷ [],
        )
        else (status_success, put_handle h ∷ unlock_port ∷ []))

pub link : Port → Call → ℕ → ℕ × List Event
unfolding give_handle
link p c connection =
    let (status, events) = give_handle p c connection in
    (
      status,
      set_context c.port_context
          ∷ link_connection
          ∷ remove_pending
          ∷ set_state connection_accepted
          ∷ wake_client status_success
          ∷ events,
    )

pub map_sections : Port → Call → ℕ → ℕ → ℕ × List Event
unfolding link
map_sections p c pending connection =
    if p.requested_section pending == 0
    then link p c connection
    else (let status = p.section_mappings connection pending in
        if not (nt_success status)
        then (status, destroy_connection ∷ remove_pending ∷ wake_client status ∷ unlock_port ∷ [])
        else link p c connection)

-- The handshake from the look-up of the request on.
pub answer : Port → Call → ℕ → ℕ × List Event
unfolding map_sections
answer p c server_port =
    let pending = p.lookup_pending server_port c.connection_id in
    if pending == 0
    then (status_invalid_parameter, unlock_port ∷ [])
    else if not c.accept
    then (
      status_connection_refused,
      remove_pending
          ∷ set_state connection_refused
          ∷ wake_client status_connection_refused
          ∷ deref_and_free
          ∷ unlock_port
          ∷ [],
    )
    else (let status = p.security_checks server_port pending in
        if not (nt_success status)
        then (status, remove_pending ∷ wake_client status ∷ deref_and_free ∷ unlock_port ∷ [])
        else (let connection = p.create_connection server_port pending in
            if connection == 0
            then (
              status_insufficient_resources,
              remove_pending ∷ wake_client status_insufficient_resources ∷ unlock_port ∷ [],
            )
            else map_sections p c pending connection))

-- The port is locked first.
pub locked : Port → Call → ℕ → ℕ × List Event
unfolding answer
locked p c server_port =
    if c.request == 0
    then (status_invalid_parameter, lock_port ∷ unlock_port ∷ [])
    else (let (status, events) = answer p c server_port in (status, lock_port ∷ events))

-- NtAcceptConnectPort. GetCurrentProcessListeningPort is not defined.
pub nt_accept_connect_port : Port → Call → ℕ × List Event
unfolding locked
nt_accept_connect_port p c =
    if not (c.port_handle == 0) && is_valid_handle c.handle
    then (let server_port = p.object_from_handle c.handle in
        if server_port == 0 then (status_invalid_parameter, []) else locked p c server_port)
    else (status_invalid_parameter, [])
