-- ===== src/Inos/Tests.antt =====
-- The stray directory 3 of server 7.
use mds.Prelude.{◌≡◌, true, false, arith}
use mds.Inos.{stray, mdsdir, is_stray, is_base, stray_owner, stray_index, stray_lem}

stray_lem_example :
    (is_stray (stray 7 3) ≡ true)
    × (is_base (stray 7 3) ≡ false)
    × (stray_owner (stray 7 3) ≡ 7)
    × (stray_index (stray 7 3) ≡ 3)
    × (is_base (mdsdir 7) ≡ true)
    × (is_stray (mdsdir 7) ≡ false)
stray_lem_example = stray_lem 7 3 (omega arith) (omega arith)
