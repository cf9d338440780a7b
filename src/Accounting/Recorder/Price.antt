-- ===== src/Accounting/Recorder/Price.antt =====
-- app/accounting/recorder.py: what the cost formula promises.
use atlas_gateway.Common.{ℕ, ◌+◌, ◌*◌, ◌≡◌, arith}
use atlas_gateway.Domain.Messages.{Usage}
use atlas_gateway.Accounting.Recorder.{Rates, compute_cost}

-- Two calls in one.
abbrev pub plus : Usage → Usage → Usage
plus u v = record {
  input_tokens = u.input_tokens + v.input_tokens;
  output_tokens = u.output_tokens + v.output_tokens;
  cache_creation_input_tokens = u.cache_creation_input_tokens + v.cache_creation_input_tokens;
  cache_read_input_tokens = u.cache_read_input_tokens + v.cache_read_input_tokens;
}

-- More tokens of a call, written to or read from the cache or as plain input.
abbrev pub cached : Usage → ℕ → ℕ → Usage
cached u written read = record u {
  cache_creation_input_tokens = u.cache_creation_input_tokens + written;
  cache_read_input_tokens = u.cache_read_input_tokens + read;
}

abbrev pub uncached : Usage → ℕ → Usage
uncached u n = record u { input_tokens = u.input_tokens + n }

-- The costs of two calls are the cost of the tokens of both.
pub compute_cost-plus :
    (u v : Usage) (r : Rates) → compute_cost (plus u v) r ≡ compute_cost u r + compute_cost v r
unfolding compute_cost
compute_cost-plus u v r = grind arith

-- Tokens read from the cache cost a tenth of what they cost as input, and tokens written to it five
-- quarters of that.
pub cache_prices :
    (u : Usage) (r : Rates) (n : ℕ)
    → (10 * compute_cost (cached u 0 n) r ≡ 9 * compute_cost u r + compute_cost (uncached u n) r)
      × (4 * compute_cost (cached u n 0) r + compute_cost u r ≡ 5 * compute_cost (uncached u n) r)
unfolding compute_cost
cache_prices u r n = (grind arith, grind arith)
