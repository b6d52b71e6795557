-- ===== src/Idt/Tests.antt =====
-- The theorem of PrintStatus at STATUS_INSUFFICIENT_RESOURCES.
use libre_win.Prelude.{◌≡◌, arith}
use libre_win.Idt.Syscalls.{print_status, hex_value, hex_value-print_status}

hex_value-print_status_example : hex_value 0 (print_status 0xC000009A) ≡ 0xC000009A
hex_value-print_status_example = hex_value-print_status 0xC000009A (omega arith)
