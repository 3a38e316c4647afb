-- ===== src/InodeT/Tests.antt =====
-- A file with the ranges of two clients.
use mds.Prelude.{ℕ, ◌≤◌, ◌≡◌, some, [], ◌∷◌, find}
use mds.InodeT.{Range, InodeT, get_max_size, set_max_size, get_max_size_lem}

abbrev file : InodeT
file = record {
  size = 4096;
  max_size_ever = 5000;
  truncate_seq = 1;
  truncate_size = 0;
  truncate_from = 0;
  truncate_pending = 0;
  rbytes = 4096;
  client_ranges =
      (10, record { first = 0; last = 8192; follows = 3 })
      ∷ (12, record { first = 0; last = 4096; follows = 7 })
      ∷ [];
  version = 4;
  backtrace_version = 4;
}

get_max_size_lem_example :
    ((c : ℕ) (r : Range) → find c file.client_ranges ≡ some r → r.last ≤ get_max_size file)
    × (get_max_size (set_max_size 100 file) ≡ 100)
get_max_size_lem_example = get_max_size_lem file 100
