-- ===== src/Http/Flags.antt =====
-- The bits of `m_parserParamFlag` of src/http/http.cc, by evaluation of all eight values.
use phase.Base.{ℕ, ◌<◌, ◌≡◌, refl, Bool, true, not, ◌&&◌, ◌||◌, arith, bit_and, bit_or, ltb, ◌==◌}
use phase.Utils.UrlLaws.{passes, passes_lem}

abbrev pub has_bit : ℕ → ℕ → Bool
has_bit f bit = not (bit_and f bit == 0)

abbrev bounded : ℕ → Bool
bounded f = ltb (bit_or f 1) 8 && ltb (bit_or f 2) 8 && ltb (bit_or f 4) 8

abbrev recorded : ℕ → Bool
recorded f = has_bit (bit_or f 1) 1 && has_bit (bit_or f 2) 2 && has_bit (bit_or f 4) 4

abbrev retained : ℕ → Bool
retained f = not (has_bit f 1) || has_bit (bit_or f 2) 1

all_bounded : passes bounded 8 ≡ true
all_bounded = refl

all_recorded : passes recorded 8 ≡ true
all_recorded = refl

all_retained : passes retained 8 ≡ true
all_retained = refl

pub flag_bound : (f : ℕ) → f < 8 → (bit_or f 1 < 8) × (bit_or f 2 < 8) × (bit_or f 4 < 8)
flag_bound f h = ground (arith, passes_lem bounded 8 f all_bounded h)

pub flag_recorded :
    (f : ℕ)
    → f < 8
    → (has_bit (bit_or f 1) 1 ≡ true)
      × (has_bit (bit_or f 2) 2 ≡ true)
      × (has_bit (bit_or f 4) 4 ≡ true)
flag_recorded f h = ground (arith, passes_lem recorded 8 f all_recorded h)

pub flag_retained : (f : ℕ) → f < 8 → has_bit f 1 ≡ true → has_bit (bit_or f 2) 1 ≡ true
flag_retained f h e = ground (arith, e, passes_lem retained 8 f all_retained h)
