-- ===== src/Ids.antt =====
-- annotated_string.h, `union ID` and `class Site`: the identifiers of characters, attributes and
-- annotations. An ID is its 64 bits; the low 16 are the site, the high 48 the clock.
pub mod Fresh
use ced.Base.{
  ℕ, zero, suc, ◌+◌, ◌-◌, ◌*◌, ◌/◌, ◌%◌, ◌^◌, ◌==◌, Bool, if◌then◌else◌, Option, none, some, List,
  [], ◌∷◌,
}

abbrev pub Id64 : Type 0
Id64 = ℕ

-- ID(uint16_t s, uint64_t i): both bit fields truncate.
unfoldable pub make_id : ℕ → ℕ → Id64
make_id s i = s % 2 ^ 16 + i % 2 ^ 48 * 2 ^ 16

unfoldable pub site_of : Id64 → ℕ
site_of id = id % 2 ^ 16

unfoldable pub clock_of : Id64 → ℕ
clock_of id = id / 2 ^ 16 % 2 ^ 48

-- `id.clock++`, which wraps within its 48 bits.
unfoldable pub next_clock : Id64 → Id64
unfolding make_id site_of clock_of
next_clock id = make_id (site_of id) (clock_of id + 1)

-- ID(), AnnotatedString::Begin() and AnnotatedString::End().
abbrev pub null_id : Id64
null_id = 0

abbrev pub begin_id : Id64
begin_id = 65536

abbrev pub end_id : Id64
end_id = 131072

-- `clock` is the next value that fetch_add returns.
pub record Site : Type 0 where
  pub id : ℕ
  pub clock : ℕ

-- The constructor aborts on site 0, which is kept for Begin and End. `id_gen` is the static counter
-- of sites that are not given an id; it comes back with its new value.
unfoldable pub make_site : Option ℕ → ℕ → Option (Site × ℕ)
make_site (some given) id_gen =
    if given % 2 ^ 16 == 0 then none else some (record { id = given % 2 ^ 16; clock = 0 }, id_gen)
make_site none id_gen =
    if id_gen == 0 then none else some (record { id = id_gen; clock = 0 }, (id_gen + 1) % 2 ^ 16)

unfoldable pub generate_id : Site → Id64 × Site
unfolding make_id
generate_id s = (make_id s.id s.clock, record s { clock = (s.clock + 1) % 2 ^ 64 })

-- The first and the last ID of a block of n, and the site after it.
unfoldable pub generate_id_block : Site → ℕ → Id64 × Id64 × Site
unfolding make_id
generate_id_block s n = (
  make_id s.id s.clock,
  make_id s.id ((s.clock + n + (2 ^ 64 - 1)) % 2 ^ 64),
  record s { clock = (s.clock + n) % 2 ^ 64 },
)

unfoldable pub created_id : Site → Id64 → Bool
unfolding site_of
created_id s id = site_of id == s.id

-- The IDs that a block of n stands for: IntegrateInsert counts the clock up from the first.
unfoldable pub id_block : Id64 → ℕ → List Id64
id_block first zero = []
id_block first (suc n) = first ∷ id_block (next_clock first) n
