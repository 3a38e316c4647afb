-- ===== src/Inos.antt =====
-- mds/mdstypes.h: the inode numbers that are set aside for the servers. MAX_MDS is 256 and
-- NUM_STRAY is 10; `unsigned` is 32 bits wide.
mod Tests
use mds.Prelude.{
  ℕ, ◌+◌, ◌-◌, ◌*◌, ◌/◌, ◌%◌, ◌^◌, ◌≤◌, ◌<◌, ◌≡◌, ◌≢◌, refl, Bool, true, false, ◌&&◌, ◌||◌, arith,
  ltb, leb, ◌==◌,
}

abbrev pub mdsdir_offset : ℕ
mdsdir_offset = 256

abbrev pub stray_offset : ℕ
stray_offset = 6 * 256

unfoldable pub stray : (x i : ℕ) → ℕ
stray x i = (stray_offset + (x * 10 + i)) % 2 ^ 32

unfoldable pub mdsdir : (x : ℕ) → ℕ
mdsdir x = (mdsdir_offset + x) % 2 ^ 32

unfoldable pub is_stray : ℕ → Bool
is_stray i = leb stray_offset i && ltb i (stray_offset + 256 * 10)

unfoldable pub is_mdsdir : ℕ → Bool
is_mdsdir i = leb mdsdir_offset i && ltb i (mdsdir_offset + 256)

unfoldable pub is_base : ℕ → Bool
is_base i = 1 == i || is_mdsdir i

unfoldable pub stray_owner : ℕ → ℕ
stray_owner i = (i % 2 ^ 32 + 2 ^ 32 - stray_offset) % 2 ^ 32 / 10

unfoldable pub stray_index : ℕ → ℕ
stray_index i = (i % 2 ^ 32 + 2 ^ 32 - stray_offset) % 2 ^ 32 % 10

-- For a server and an index in range, the number of its stray directory is one, is none of the base
-- directories, and gives back the server and the index; the number of its own directory is a base
-- directory and no stray one.
pub stray_lem :
    (x i : ℕ)
    → x < 256
    → i < 10
    → (is_stray (stray x i) ≡ true)
      × (is_base (stray x i) ≡ false)
      × (stray_owner (stray x i) ≡ x)
      × (stray_index (stray x i) ≡ i)
      × (is_base (mdsdir x) ≡ true)
      × (is_stray (mdsdir x) ≡ false)
unfolding stray mdsdir is_stray is_mdsdir is_base stray_owner stray_index
stray_lem x i p q = (
  ground (arith, p, q),
  ground (arith, p, q),
  omega (arith, p, q),
  omega (arith, p, q),
  ground (arith, p),
  ground (arith, p),
)
