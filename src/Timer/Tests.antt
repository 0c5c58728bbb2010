-- ===== src/Timer/Tests.antt =====
-- 100 interrupts a second, as the kernel asks for, with the timer's callback at address 0x1000.
use panda_os.Base.{ℕ, ◌+◌, ◌*◌, ◌^◌, ◌≤◌, ◌≡◌, ◌↔◌, [], ◌∷◌, ok, arith}
use panda_os.Interrupts.{Machine}
use panda_os.Timer.{init_timer}
use panda_os.Timer.Divisor.{init_timer-divisor}

abbrev bare : Machine ℕ
bare = record {
  interrupt_handlers = λ i. 0;
  monitor = record {
    video = λ i. i;
    cursor_x = 0;
    cursor_y = 0;
    background_color = 0;
    foreground_color = 15;
    ports = [];
  };
  world = 0;
}

init_timer-divisor_example :
    (s' : Machine ℕ) × (l : ℕ) × (h : ℕ) × (init_timer 0x1000 100 bare ≡ ok s')
    × (s'.monitor.ports ≡ (0x40, h) ∷ (0x40, l) ∷ (0x43, 0x36) ∷ [])
    × (l + h * 2 ^ 8 ≡ 11931)
    × ((l + h * 2 ^ 8 ≡ 11931) ↔ (19 ≤ 100))
    × (s'.interrupt_handlers 32 ≡ 0x1000)
init_timer-divisor_example = init_timer-divisor 0x1000 100 32 bare (omega arith)
