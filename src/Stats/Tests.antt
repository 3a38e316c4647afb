-- ===== src/Stats/Tests.antt =====
-- Two fragments, accounted and counted anew.
use mds.Prelude.{ℕ, ◌≡◌, refl, false, [], ◌∷◌}
use mds.Prelude.Int.{pos, ◌+ℤ◌}
use mds.Time.{ticks, ticks-IsClock}
use mds.Stats.{FragInfo, NestInfo, frag_add_delta, nest_add_delta, Sums, FragSums, add_delta_lem}

abbrev nest : (time bytes files : ℕ) → NestInfo ℕ
nest time bytes files = record {
  rctime = time;
  rbytes = pos bytes;
  rfiles = pos files;
  rsubdirs = pos 1;
  rsnaprealms = pos 0;
}

abbrev frag : (time files : ℕ) → FragInfo ℕ
frag time files = record { mtime = time; nfiles = pos files; nsubdirs = pos 1 }

abbrev both : NestInfo ℕ
both = record {
  rctime = 5;
  rbytes = pos 300;
  rfiles = pos 7;
  rsubdirs = pos 2;
  rsnaprealms = pos 0;
}

both-Sums : Sums both (nest 3 100 4 ∷ nest 5 200 3 ∷ [])
unfolding ◌+ℤ◌
both-Sums = record { bytes = refl; files = refl; subdirs = refl; snaprealms = refl }

frags-Sums : FragSums (frag 5 4) (frag 5 4 ∷ [])
unfolding ◌+ℤ◌
frags-Sums = record { files = refl; subdirs = refl }

add_delta_lem_example :
    Sums
      (nest_add_delta ticks (nest 9 150 6) (nest 5 200 3) both)
      (nest 3 100 4 ∷ nest 9 150 6 ∷ [])
    × FragSums (frag_add_delta ticks (frag 8 2) (frag 5 4) (frag 5 4) false).0 (frag 8 2 ∷ [])
    × (ticks.lt (nest_add_delta ticks (nest 9 150 6) (nest 5 200 3) both).rctime 5 ≡ false)
add_delta_lem_example =
    add_delta_lem ticks ticks-IsClock (nest 3 100 4 ∷ []) [] (nest 9 150 6) (nest 5 200 3) both []
      [] (frag 8 2) (frag 5 4) (frag 5 4) false both-Sums frags-Sums
