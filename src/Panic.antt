-- ===== src/Panic.antt =====
-- utils/panic.c: what is on the screen when the kernel stops. Both functions go round for ever at their
-- end, which `panic` of Base/Result stands for elsewhere.
use panda_os.Base.{ℕ, List}
use panda_os.Base.Text.{bytes}
use panda_os.Monitor.{Monitor, monitor_write_sys, monitor_write_dec}
use panda_os.Monitor.Cursor.{IsValid}
use panda_os.Interrupts.Dispatch.{monitor_write_sys-IsValid, monitor_write_dec-IsValid}

-- `) at file:line`
abbrev print_place : (file : List ℕ) (line : ℕ) → Monitor → Monitor
print_place file line m = monitor_write_sys (bytes "\n") (
    monitor_write_dec line (
      monitor_write_sys (bytes ":") (monitor_write_sys file (monitor_write_sys (bytes ") at ") m))))

unfoldable pub panic_text : (message file : List ℕ) (line : ℕ) → Monitor → Monitor
panic_text message file line m =
    print_place file line (monitor_write_sys message (monitor_write_sys (bytes "PANIC(") m))

unfoldable pub panic_assert_text : (file : List ℕ) (line : ℕ) (desc : List ℕ) → Monitor → Monitor
panic_assert_text file line desc m =
    print_place file line (monitor_write_sys desc (monitor_write_sys (bytes "ASSERTION-FAILED(") m))

print_place-IsValid :
    (file : List ℕ) (line : ℕ) {m : Monitor} → IsValid m → IsValid (print_place file line m)
print_place-IsValid file line v = monitor_write_sys-IsValid (bytes "\n") (
    monitor_write_dec-IsValid line (
      monitor_write_sys-IsValid (bytes ":")
        (monitor_write_sys-IsValid file (monitor_write_sys-IsValid (bytes ") at ") v))))

-- Whatever the message, the cursor is on the screen when the kernel stops.
pub panic_text-IsValid :
    (message file : List ℕ) (line : ℕ) {m : Monitor}
    → IsValid m
    → IsValid (panic_text message file line m)
unfolding panic_text
panic_text-IsValid message file line v =
    print_place-IsValid file line
      (monitor_write_sys-IsValid message (monitor_write_sys-IsValid (bytes "PANIC(") v))

pub panic_assert_text-IsValid :
    (file : List ℕ) (line : ℕ) (desc : List ℕ) {m : Monitor}
    → IsValid m
    → IsValid (panic_assert_text file line desc m)
unfolding panic_assert_text
panic_assert_text-IsValid file line desc v =
    print_place-IsValid file line
      (monitor_write_sys-IsValid desc (monitor_write_sys-IsValid (bytes "ASSERTION-FAILED(") v))
