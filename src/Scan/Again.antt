-- ===== src/Scan/Again.antt =====
-- A task that is delivered again (scan_processor.py).
use loupe_backend.Prelude.{ℕ, ◌≡◌, Bool, true, not, Option, none, some, List}
use loupe_backend.Prelude.Text.{Text}
use loupe_backend.Prelude.Tables.{Table, find}
use loupe_backend.Scan.{Job, Graded}
use loupe_backend.Scan.Worker.{is_running}

-- No card more and no row changed.
abbrev pub IsUnchanged : Table Job × List Graded → Table Job × List Graded → Type 0
IsUnchanged r s = r.1 ≡ s.1 × ((k : ℕ) → find k r.0 ≡ find k s.0)

abbrev is_still : Option Job → Bool
is_still none = true
is_still (some j) = not (is_running j.status)
