-- ===== src/Ids/Fresh.antt =====
-- The IDs that a site hands out: whose they are, and where their clocks lie.
use ced.Base.{
  ℕ, zero, suc, ◌+◌, ◌-◌, ◌%◌, ◌^◌, ◌<◌, ◌≤◌, ◌≡◌, ◌≢◌, arith, ap, ==_refl, true, some, none,
  Option, All,
}
use ced.Ids.{
  Id64, make_id, site_of, clock_of, next_clock, null_id, begin_id, end_id, Site, make_site,
  generate_id, generate_id_block, created_id, id_block,
}

-- A site as its constructor leaves it and as its operations keep it, while its 48 bits of clock last.
pub record IsSite (s : Site) : Type 0 where
  pub named : 0 < s.id
  pub short : s.id < 2 ^ 16
  pub running : s.clock ≤ 2 ^ 48

-- From a counter of 16 bits, a site that the constructor makes, with an ID given or not, is well
-- formed, and the counter stays within 16 bits.
pub make_site-IsSite :
    (given : Option ℕ) (id_gen : ℕ) {s : Site} {g : ℕ}
    → id_gen < 2 ^ 16
    → make_site given id_gen ≡ some (s, g)
    → IsSite s × (g < 2 ^ 16)
unfolding make_site
make_site-IsSite (some x) id_gen h e = ground arith
make_site-IsSite none id_gen h e = ground arith

-- The two fields of an ID read back as they were given, within their widths.
pub make_id_fields :
    (s c : ℕ) → s < 2 ^ 16 → c < 2 ^ 48 → (site_of (make_id s c) ≡ s) × (clock_of (make_id s c) ≡ c)
unfolding make_id site_of clock_of
make_id_fields s c p q = omega arith

-- Counting the clock of an ID up goes to the ID of the next clock value.
pub next_clock-make_id :
    (s c : ℕ) → s < 2 ^ 16 → c + 1 < 2 ^ 48 → next_clock (make_id s c) ≡ make_id s (c + 1)
unfolding next_clock make_id site_of clock_of
next_clock-make_id s c p q = omega arith

-- The site that an ID belongs to, and the range that its clock lies in.
pub record IsFrom (s lo hi : ℕ) (id : Id64) : Type 0 where
  pub at_site : site_of id ≡ s
  pub not_before : lo ≤ clock_of id
  pub before : clock_of id < hi

make_id-IsFrom :
    (s lo c hi : ℕ) → s < 2 ^ 16 → c < 2 ^ 48 → lo ≤ c → c < hi → IsFrom s lo hi (make_id s c)
make_id-IsFrom s lo c hi p q a b =
    let f = make_id_fields s c p q in
    record { at_site = f.0; not_before = omega arith; before = omega arith }

-- Every ID of a block is of its site and within its range of the clock.
pub id_block-IsFrom :
    (s lo c n hi : ℕ)
    → s < 2 ^ 16
    → hi ≤ 2 ^ 48
    → c + n ≤ hi
    → lo ≤ c
    → All (IsFrom s lo hi) (id_block (make_id s c) n)
unfolding id_block
id_block-IsFrom s lo c zero hi p q r a = tt
id_block-IsFrom s lo c (suc zero) hi p q r a =
    (make_id-IsFrom s lo c hi p (omega arith) a (omega arith), tt)
id_block-IsFrom s lo c (suc (suc n)) hi p q r a = (
  make_id-IsFrom s lo c hi p (omega arith) a (omega arith),
  rw (next_clock-make_id s c p (omega arith))
      (id_block-IsFrom s lo (c + 1) (suc n) hi p q (omega arith) (omega arith)),
)

-- IDs of ranges of the clock that do not meet are different.
pub IsFrom-ne : (s lo mid hi : ℕ) (a b : Id64) → IsFrom s lo mid a → IsFrom s mid hi b → a ≢ b
IsFrom-ne s lo mid hi a b f g e = absurd (omega (arith, f.before, g.not_before, ap clock_of e))

-- The reserved IDs are of site 0, so they are none of a site's.
pub IsFrom-not_reserved :
    (s lo hi : ℕ) (a : Id64)
    → 0 < s
    → IsFrom s lo hi a
    → (a ≢ null_id) × (a ≢ begin_id) × (a ≢ end_id)
unfolding site_of
IsFrom-not_reserved s lo hi a p f = (
  λ e. absurd (omega (arith, f.at_site, ap site_of e)),
  λ e. absurd (omega (arith, f.at_site, ap site_of e)),
  λ e. absurd (omega (arith, f.at_site, ap site_of e)),
)

-- The ID that GenerateID returns is recognised by CreatedID, lies in the clock range it consumes,
-- and the site stays well formed.
pub generate_id_fresh :
    (s : Site)
    → IsSite s
    → s.clock < 2 ^ 48
    → IsFrom s.id s.clock (generate_id s).1.clock (generate_id s).0
      × (created_id s (generate_id s).0 ≡ true)
      × IsSite (generate_id s).1
unfolding generate_id created_id
generate_id_fresh s w h =
    let e : (s.clock + 1) % 2 ^ 64 ≡ s.clock + 1 = omega arith in
    let f = make_id_fields s.id s.clock w.short h in
    (
      rw e
          (make_id-IsFrom s.id s.clock s.clock (s.clock + 1) w.short h (omega arith) (omega arith)),
      rw f.0 (==_refl s.id),
      record { named = w.named; short = w.short; running = omega arith },
    )

-- GenerateIDBlock(n) for n above 0 reserves n values of the clock: the IDs counted up from the first
-- are the site's, in the range that is consumed, the second result is the last of them, and the site
-- stays well formed.
pub generate_id_block_fresh :
    (s : Site) (n : ℕ)
    → IsSite s
    → 0 < n
    → s.clock + n ≤ 2 ^ 48
    → let (first, last, t) = generate_id_block s n in
      All (IsFrom s.id s.clock t.clock) (id_block first n)
      × (last ≡ make_id s.id (s.clock + (n - 1)))
      × IsSite t
unfolding generate_id_block
generate_id_block_fresh s n w p h =
    let e : (s.clock + n) % 2 ^ 64 ≡ s.clock + n = omega arith in
    let e' : (s.clock + n + (2 ^ 64 - 1)) % 2 ^ 64 ≡ s.clock + (n - 1) = omega arith in
    (
      rw e (
          id_block-IsFrom s.id s.clock s.clock n (s.clock + n) w.short h (omega arith)
            (omega arith)),
      rw e',
      record { named = w.named; short = w.short; running = omega arith },
    )
