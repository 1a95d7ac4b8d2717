-- ===== src/CommandChannel/RateLimiter.antt =====
-- `RateLimiter`: a token bucket.
use Prim.Native.Nat.{min, max}
use crapssim_control.Prelude.{
  ℕ, suc, ◌+◌, ◌-◌, ◌/◌, ◌≤◌, ◌<◌, ◌≡◌, Bool, true, false, Option, none, some, List, [], ◌∷◌, arith,
  ltb, leb, ◌==◌, if◌then◌else◌, All, length, Bool-cases, inl, inr,
}

pub record RateLimiter : Type 0 where
  pub tokens : ℕ
  pub refill_seconds : ℕ
  pub available : ℕ
  pub last_refill : ℕ

-- `__init__`
unfoldable pub init : ℕ → ℕ → ℕ → RateLimiter
init tokens refill_seconds now = record {
  tokens = max 1 tokens;
  refill_seconds = refill_seconds;
  available = max 1 tokens;
  last_refill = now;
}

-- What the bucket gains: nothing before a whole interval has passed, which is `now - last_refill >=
-- refill_seconds`. `none` is the ZeroDivisionError of an interval of 0.
refill : ℕ → RateLimiter → Option RateLimiter
refill now l =
    if leb (l.last_refill + l.refill_seconds) now
    then if l.refill_seconds == 0
      then none
      else (let gained = (now - l.last_refill) / l.refill_seconds in
          if ltb 0 gained
          then some
              (record l { available = min l.tokens (l.available + gained); last_refill = now })
          else some l)
    else some l

take : RateLimiter → Bool × RateLimiter
take l = if ltb 0 l.available then (true, record l { available = l.available - 1 }) else (false, l)

unfoldable pub allow : ℕ → RateLimiter → Option (Bool × RateLimiter)
unfolding refill take
allow now l = elim (refill now l) [ none ↦ none | some m ↦ some (take m) ]

-- The bucket never holds more than its tokens.
abbrev pub IsBucket : RateLimiter → Type 0
IsBucket l = l.available ≤ l.tokens

pub init-IsBucket : (tokens interval now : ℕ) → IsBucket (init tokens interval now)
unfolding init
init-IsBucket tokens interval now = omega arith

pub allow-IsBucket :
    (now : ℕ) (l : RateLimiter) {ok : Bool} {l' : RateLimiter}
    → IsBucket l
    → allow now l ≡ some (ok, l')
    → IsBucket l' × (l'.tokens ≡ l.tokens)
unfolding allow
allow-IsBucket now l h e = ground arith

-- A run of calls, one for each clock reading, with the number of calls let through.
unfoldable pub allow_all : List ℕ → RateLimiter → Option (ℕ × RateLimiter)
allow_all [] l = some (0, l)
allow_all (now ∷ times) l = elim (allow now l) [
  | none ↦ none
  | some (ok, l') ↦ elim (allow_all times l') [
    | none ↦ none
    | some (n, l'') ↦ some (if ok then suc n else n, l'')
  ]
]

allow_early :
    (now : ℕ) (l : RateLimiter)
    → now < l.last_refill + l.refill_seconds
    → allow now l ≡ some (take l)
unfolding allow
allow_early now l h = ground arith

-- Before the next refill is due a source gets exactly the tokens that are left, one to each of its
-- first calls, and no call fails.
pub allow_all_burst :
    (times : List ℕ) (l : RateLimiter)
    → All (λ now. now < l.last_refill + l.refill_seconds) times
    → allow_all times l
      ≡ some (min (length times) l.available, record l { available = l.available - length times })
unfolding allow_all take
allow_all_burst [] l h = ground arith
allow_all_burst (now ∷ times) l h = elim (Bool-cases (ltb 0 l.available)) [
  | inl e ↦
      let taken = record l { available = l.available - 1 } in
      ground (arith, allow_early now l h.0, e, allow_all_burst times taken h.1)
  | inr e ↦ ground (arith, allow_early now l h.0, e, allow_all_burst times l h.1)
]
