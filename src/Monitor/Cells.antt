-- ===== src/Monitor/Cells.antt =====
-- The loops over the frame buffer, cell by cell.
use panda_os.Base.{ℕ, zero, suc, ◌+◌, ◌≡◌, ◌&&◌, ltb, leb, if◌then◌else◌, arith, u16}
use panda_os.Monitor.{Monitor, put_cell, copy_up, fill, scroll, blank}

copy_up-cell :
    (left i : ℕ) (video : ℕ → ℕ) (j : ℕ)
    → copy_up left i video j
      ≡ (if leb i j && ltb j (i + left) then u16 (video (j + 80)) else video j)
unfolding copy_up put_cell
copy_up-cell zero i video j = ground arith
copy_up-cell (suc left) i video j =
    ground (arith, copy_up-cell left (i + 1) (put_cell i (video (i + 80)) video) j)

fill-cell :
    (left i v : ℕ) (video : ℕ → ℕ) (j : ℕ)
    → fill left i v video j ≡ (if leb i j && ltb j (i + left) then u16 v else video j)
unfolding fill put_cell
fill-cell zero i v video j = ground arith
fill-cell (suc left) i v video j = ground (arith, fill-cell left (i + 1) v (put_cell i v video) j)

-- What `scroll` leaves in cell j once the cursor has left the last line: the cell one line below, a
-- blank on the last line, and behind the screen what was there.
abbrev pub scrolled : Monitor → ℕ → ℕ
scrolled s j =
    if ltb j 1920 then u16 (s.video (j + 80)) else (if ltb j 2000 then u16 (blank s) else s.video j)

-- On line 25 or below `scroll` moves each of the 24 upper lines up from the one below it, blanks the
-- last line, writes no cell outside the screen and puts the cursor on line 24; on lines 0 to 24 it
-- leaves every cell and the line alone. The column is never changed.
pub scroll-cell :
    (s : Monitor) (j : ℕ)
    → ((scroll s).video j ≡ (if leb 25 s.cursor_y then scrolled s j else s.video j))
      × ((scroll s).cursor_y ≡ (if leb 25 s.cursor_y then 24 else s.cursor_y))
      × ((scroll s).cursor_x ≡ s.cursor_x)
unfolding scroll
scroll-cell s j =
    ground
      (arith, fill-cell 80 1920 (blank s) (copy_up 1920 0 s.video) j, copy_up-cell 1920 0 s.video j)
