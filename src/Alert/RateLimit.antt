-- ===== src/Alert/RateLimit.antt =====
-- internal/alert/ratelimit.go: a rule fires at most once in its cooldown. `time.Since` and
-- `time.Now` of one call read the same instant `now`.
use mathlib.Core.Path.{ap₂, subst}
use logtailr.Base.{
  ℕ, String, ◌≡◌, refl, ◌∙◌, Bool, true, false, ◌&&◌, Option, none, some, List, [], ◌∷◌, arith,
  str_eq, eq_iff, eq_refl, if◌then◌else◌, Bool-cases, inl, inr, All,
}
use logtailr.Base.Int.{ℤ, pos, sub_ℕ, leb_ℤ, ltb_ℤ, ◌≤ℤ◌, ◌<ℤ◌}
use logtailr.Base.Dict.{Dict, get, put, get-put}

abbrev pub RateLimiter : Type 0
RateLimiter = Dict ℕ

is_cooling : ℕ → ℤ → Option ℕ → Bool
is_cooling now cooldown none = false
is_cooling now cooldown (some last) = ltb_ℤ (sub_ℕ now last) cooldown

unfoldable pub allow : ℕ → String → ℤ → RateLimiter → Bool × RateLimiter
unfolding is_cooling
allow now rule cooldown last_fire =
    if leb_ℤ cooldown (pos 0)
    then (true, last_fire)
    else if is_cooling now cooldown (get last_fire rule)
    then (false, last_fire)
    else (true, put last_fire rule now)

pub record Call : Type 0 where
  pub now : ℕ
  pub rule : String
  pub cooldown : ℤ

-- the instants at which calls for one rule are allowed
unfoldable pub fires : String → List Call → RateLimiter → List ℕ
unfolding allow
fires rule [] limiter = []
fires rule (c ∷ cs) limiter =
    let (allowed, limiter') = allow c.now c.rule c.cooldown limiter in
    let rest = fires rule cs limiter' in
    if allowed && str_eq c.rule rule then c.now ∷ rest else rest

-- each instant is at least a cooldown after the one before it
abbrev pub Spaced : ℤ → Option ℕ → List ℕ → Type 0
Spaced cooldown last [] = Unit
Spaced cooldown none (t ∷ ts) = Spaced cooldown (some t) ts
Spaced cooldown (some last) (t ∷ ts) = (cooldown ≤ℤ sub_ℕ t last) × Spaced cooldown (some t) ts

abbrev pub HasCooldown : String → ℤ → Call → Type 0
HasCooldown rule cooldown c = str_eq c.rule rule ≡ true → c.cooldown ≡ cooldown

allow_own :
    (now : ℕ) (rule : String) (cooldown : ℤ) (limiter : RateLimiter)
    → pos 0 <ℤ cooldown
    → allow now rule cooldown limiter ≡ (
        if is_cooling now cooldown (get limiter rule)
        then (false, limiter)
        else (true, put limiter rule now))
unfolding allow
allow_own now rule cooldown limiter p = ground arith

get-allow_other :
    (now : ℕ) (rule : String) (cooldown : ℤ) (limiter : RateLimiter) (k : String)
    → str_eq rule k ≡ false
    → get (allow now rule cooldown limiter).1 k ≡ get limiter k
unfolding allow
get-allow_other now rule cooldown limiter k other = ground (arith, get-put limiter rule k now)

Spaced-weaken :
    (cooldown : ℤ) (now : ℕ) (last : Option ℕ) (ts : List ℕ)
    → is_cooling now cooldown last ≡ false
    → Spaced cooldown (some now) ts
    → Spaced cooldown last (now ∷ ts)
unfolding is_cooling
Spaced-weaken cooldown now none ts h s = s
Spaced-weaken cooldown now (some last) ts h s = (ground arith, s)

not_taken : {A : Type 0} (b : Bool) (x y : A) → (if b && false then x else y) ≡ y
not_taken true x y = refl
not_taken false x y = refl

-- The instants at which a rule with a positive cooldown is allowed to fire are at least the
-- cooldown apart, whatever calls for other rules stand between; the first of them is so from the
-- instant that the limiter holds.
pub fires-Spaced :
    (rule : String) (cooldown : ℤ) (cs : List Call) (limiter : RateLimiter)
    → pos 0 <ℤ cooldown
    → All (HasCooldown rule cooldown) cs
    → Spaced cooldown (get limiter rule) (fires rule cs limiter)
unfolding fires
fires-Spaced rule cooldown [] limiter p h = tt
fires-Spaced rule cooldown (c ∷ cs) limiter p (has, h) = elim (Bool-cases (str_eq c.rule rule)) [
  | inl same ↦
      let r : c.rule ≡ rule = (eq_iff c.rule rule).0 same in
      let own =
        ap₂ (λ k d. allow c.now k d limiter) r (has same)
        ∙ allow_own c.now rule cooldown limiter p in
      elim (Bool-cases (is_cooling c.now cooldown (get limiter rule))) [
        | inl cooling ↦ rw (own, cooling) (fires-Spaced rule cooldown cs limiter p h)
        | inr cool ↦
            rw (own, cool, same)
              (Spaced-weaken cooldown c.now (get limiter rule) _ cool (
                subst (λ o. Spaced cooldown o (fires rule cs (put limiter rule c.now)))
                  (get-put limiter rule rule c.now ∙ rw (eq_refl rule))
                  (fires-Spaced rule cooldown cs (put limiter rule c.now) p h)))
      ]
  | inr other ↦
      let limiter' = (allow c.now c.rule c.cooldown limiter).1 in
      rw (other, not_taken)
        (subst (λ o. Spaced cooldown o (fires rule cs limiter'))
          (get-allow_other c.now c.rule c.cooldown limiter rule other)
          (fires-Spaced rule cooldown cs limiter' p h))
]
