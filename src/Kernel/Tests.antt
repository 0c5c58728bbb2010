-- ===== src/Kernel/Tests.antt =====
-- One module, from 0x9000 to 0xa123, as the structure at 0x100 and the words at 0x200 tell.
use panda_os.Base.{ℕ, ◌≡◌, refl, Bool, true, false, List, [], ◌∷◌, ok, arith}
use panda_os.Base.Text.{bytes}
use panda_os.Base.Memory.{Memory, load8, load32, store8, store32}
use panda_os.Heap.Placement.{Early, early_run, Ascending, Aligned}
use panda_os.Kernel.{create_filesystem, text_at}
use panda_os.Kernel.Disk.{create_filesystem-Ascending}

abbrev boot : Memory
boot = store32 0x204 0xa123 (store32 0x200 0x9000 (store32 0x118 0x200 (store32 0x114 1 (λ a. 0))))

abbrev early : Early
early = record { placement_address = 0 }

abbrev requests : List (ℕ × Bool)
requests = (128, false) ∷ (8196, true) ∷ []

create_filesystem-Ascending_example :
    (e' : Early) × (create_filesystem 0x100 boot early ≡ ok (0x9000, e'))
    × Ascending 0xa123 (early_run requests e')
    × Aligned requests (early_run requests e')
unfolding load32 load8 store32 store8
create_filesystem-Ascending_example =
    create_filesystem-Ascending 0x100 boot early requests (omega arith) (omega arith) (omega arith)

named : text_at 4 0x10 (store8 0x11 b'i' (store8 0x10 b'h' (λ a. 0))) ≡ ok (bytes "hi")
unfolding text_at load8 store8
named = refl
