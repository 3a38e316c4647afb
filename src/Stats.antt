-- ===== src/Stats.antt =====
-- mds/mdstypes.h, frag_info_t and nest_info_t: what a directory counts of its entries, and of the
-- tree below it. The counts are `int64_t`, within their range; times come from the clock.
mod Tests
use mds.Prelude.{
  ℕ, ◌≡◌, refl, ap, ◌∙◌, Bool, true, false, not, ◌&&◌, if◌then◌else◌, ◌||◌, arith, ◌==◌, List, [],
  ◌∷◌, ◌++◌,
}
use mds.Prelude.Int.{
  ℤ, pos, negsuc, pos_part, neg_part, sub_ℕ, ◌+ℤ◌, ◌-ℤ◌, ◌*ℤ◌, int_laws, +ℤ_assoc,
}
use mds.Time.{UTime, IsClock}

pub record FragInfo (T : Type 0) : Type 0 where
  pub mtime : T
  pub nfiles : ℤ
  pub nsubdirs : ℤ

pub record NestInfo (T : Type 0) : Type 0 where
  pub rctime : T
  pub rbytes : ℤ
  pub rfiles : ℤ
  pub rsubdirs : ℤ
  pub rsnaprealms : ℤ

abbrev pub eq_ℤ : ℤ → ℤ → Bool
eq_ℤ (pos a) (pos b) = a == b
eq_ℤ (negsuc a) (negsuc b) = a == b
eq_ℤ _ _ = false

module _ {T : Type 0} (u : UTime T) where
  unfoldable pub frag_size : FragInfo T → ℤ
  frag_size i = i.nfiles +ℤ i.nsubdirs

  -- `*this += cur - acc`, and whether the time was touched.
  unfoldable pub frag_add_delta :
      (cur acc i : FragInfo T) → (touched_mtime : Bool) → FragInfo T × Bool
  frag_add_delta cur acc i touched_mtime =
      let changed = not (u.same cur.mtime acc.mtime) in
      (
        record {
          mtime = if changed then cur.mtime else i.mtime;
          nfiles = i.nfiles +ℤ (cur.nfiles -ℤ acc.nfiles);
          nsubdirs = i.nsubdirs +ℤ (cur.nsubdirs -ℤ acc.nsubdirs);
        },
        if changed then true else touched_mtime,
      )

  unfoldable pub frag_add : (other i : FragInfo T) → FragInfo T
  frag_add other i = record {
    mtime = if u.lt i.mtime other.mtime then other.mtime else i.mtime;
    nfiles = i.nfiles +ℤ other.nfiles;
    nsubdirs = i.nsubdirs +ℤ other.nsubdirs;
  }

  unfoldable pub nest_add : (other : NestInfo T) (fac : ℤ) → NestInfo T → NestInfo T
  nest_add other fac i = record {
    rctime = if u.lt i.rctime other.rctime then other.rctime else i.rctime;
    rbytes = i.rbytes +ℤ (fac *ℤ other.rbytes);
    rfiles = i.rfiles +ℤ (fac *ℤ other.rfiles);
    rsubdirs = i.rsubdirs +ℤ (fac *ℤ other.rsubdirs);
    rsnaprealms = i.rsnaprealms +ℤ (fac *ℤ other.rsnaprealms);
  }

  unfoldable pub nest_sub : (other i : NestInfo T) → NestInfo T
  unfolding nest_add
  nest_sub other i = nest_add other (negsuc 0) i

  unfoldable pub nest_add_delta : (cur acc i : NestInfo T) → NestInfo T
  nest_add_delta cur acc i = record {
    rctime = if u.lt i.rctime cur.rctime then cur.rctime else i.rctime;
    rbytes = i.rbytes +ℤ (cur.rbytes -ℤ acc.rbytes);
    rfiles = i.rfiles +ℤ (cur.rfiles -ℤ acc.rfiles);
    rsubdirs = i.rsubdirs +ℤ (cur.rsubdirs -ℤ acc.rsubdirs);
    rsnaprealms = i.rsnaprealms +ℤ (cur.rsnaprealms -ℤ acc.rsnaprealms);
  }

  unfoldable pub same_sums : (i o : NestInfo T) → Bool
  same_sums i o =
      u.same i.rctime o.rctime
      && eq_ℤ i.rbytes o.rbytes
      && eq_ℤ i.rfiles o.rfiles
      && eq_ℤ i.rsubdirs o.rsubdirs
      && eq_ℤ i.rsnaprealms o.rsnaprealms

-- Adding, and taking the same away again.
add_sub : (a b : ℤ) → (a +ℤ (pos 1 *ℤ b)) +ℤ (negsuc 0 *ℤ b) ≡ a
unfolding ◌+ℤ◌ ◌*ℤ◌
add_sub (pos a) (pos b) = ground arith
add_sub (pos a) (negsuc b) = ground arith
add_sub (negsuc a) (pos b) = ground arith
add_sub (negsuc a) (negsuc b) = ground arith

-- The sum of a count over a list.
abbrev pub total {ℓ} : {A : Type ℓ} → (A → ℤ) → List A → ℤ
total f [] = pos 0
total f (x ∷ xs) = f x +ℤ total f xs

-- A change of one item changes the sum by as much.
total_replace :
    {A : Type 0} (f : A → ℤ) (xs ys : List A) (acc cur : A)
    → total f (xs ++ acc ∷ ys) +ℤ (f cur -ℤ f acc) ≡ total f (xs ++ cur ∷ ys)
total_replace f [] ys acc cur = omega int_laws
total_replace f (x ∷ xs) ys acc cur =
    +ℤ_assoc (f x) (total f (xs ++ acc ∷ ys)) (f cur -ℤ f acc)
    ∙ ap (λ s. f x +ℤ s) (total_replace f xs ys acc cur)

-- The counts are the sums of those of the parts.
pub record Sums {T : Type 0} (i : NestInfo T) (parts : List (NestInfo T)) : Type 0 where
  pub bytes : i.rbytes ≡ total (λ p. p.rbytes) parts
  pub files : i.rfiles ≡ total (λ p. p.rfiles) parts
  pub subdirs : i.rsubdirs ≡ total (λ p. p.rsubdirs) parts
  pub snaprealms : i.rsnaprealms ≡ total (λ p. p.rsnaprealms) parts

pub record FragSums {T : Type 0} (i : FragInfo T) (parts : List (FragInfo T)) : Type 0 where
  pub files : i.nfiles ≡ total (λ p. p.nfiles) parts
  pub subdirs : i.nsubdirs ≡ total (λ p. p.nsubdirs) parts

module _ {T : Type 0} (u : UTime T) (c : IsClock u) where
  -- If the counts are the sums of what was accounted for the parts, they stay so when one part,
  -- accounted as `acc`, is accounted anew as `cur` and the difference is added, both for the counts
  -- of the entries and for those of the tree. The time of the tree never goes back.
  pub add_delta_lem :
      (xs ys : List (NestInfo T)) (cur acc i : NestInfo T) (fxs fys : List (FragInfo T))
      (fcur facc fi : FragInfo T) (touched : Bool)
      → Sums i (xs ++ acc ∷ ys)
      → FragSums fi (fxs ++ facc ∷ fys)
      → Sums (nest_add_delta u cur acc i) (xs ++ cur ∷ ys)
        × FragSums (frag_add_delta u fcur facc fi touched).0 (fxs ++ fcur ∷ fys)
        × (u.lt (nest_add_delta u cur acc i).rctime i.rctime ≡ false)
  unfolding nest_add_delta frag_add_delta
  add_delta_lem xs ys cur acc i fxs fys fcur facc fi touched v w = (
    record {
      bytes = rw v.bytes (total_replace (λ p. p.rbytes) xs ys acc cur);
      files = rw v.files (total_replace (λ p. p.rfiles) xs ys acc cur);
      subdirs = rw v.subdirs (total_replace (λ p. p.rsubdirs) xs ys acc cur);
      snaprealms = rw v.snaprealms (total_replace (λ p. p.rsnaprealms) xs ys acc cur);
    },
    record {
      files = rw w.files (total_replace (λ p. p.nfiles) fxs fys facc fcur);
      subdirs = rw w.subdirs (total_replace (λ p. p.nsubdirs) fxs fys facc fcur);
    },
    ground (arith, c.lt_asymm i.rctime cur.rctime, c.lt_asymm i.rctime i.rctime),
  )

  latest :
      (a b : T)
      → (if u.lt (if u.lt a b then b else a) b then b else if u.lt a b then b else a)
        ≡ (if u.lt a b then b else a)
  latest a b = ground (arith, c.lt_asymm b b)
