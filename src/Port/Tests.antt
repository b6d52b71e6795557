-- ===== src/Port/Tests.antt =====
-- The theorems of accept.c with the file's own functions.
use libre_win.Prelude.{◌≡◌, ◌⊎◌, true, false, arith, []}
use libre_win.Port.{Call, stubs, nt_accept_connect_port}
use libre_win.Port.Lock.{
  has_port, is_section, wakes, nt_accept_connect_port-lock, nt_accept_connect_port-wakes,
}

abbrev refusal : Call
refusal = record {
  port_handle = 64;
  handle = 0x1000;
  port_context = 0;
  request = 128;
  connection_id = 1;
  accept = false;
}

nt_accept_connect_port-lock_example :
    let p = stubs 256 512 in
    ((has_port p refusal ≡ true) × (is_section (nt_accept_connect_port p refusal).1 ≡ true))
    ⊎ ((has_port p refusal ≡ false) × ((nt_accept_connect_port p refusal).1 ≡ []))
nt_accept_connect_port-lock_example = nt_accept_connect_port-lock (stubs 256 512) refusal

nt_accept_connect_port-wakes_example : wakes (nt_accept_connect_port (stubs 256 512) refusal).1 ≡ 1
unfolding stubs
nt_accept_connect_port-wakes_example =
    nt_accept_connect_port-wakes (stubs 256 512) refusal (omega arith) (omega arith) (omega arith)
      (omega arith) (omega arith)
