-- ===== src/RateLimit.antt =====
-- app/services/rate_limit.py: the counters of failed attempts in Redis.
-- `now` is the time in seconds that Redis and the service read; one command is one function here.
pub mod Interleaving
pub mod Windows
use open_whistle.Base.{
  ℕ, zero, suc, ◌+◌, ◌-◌, ◌*◌, ◌/◌, ◌%◌, ◌≤◌, ◌<◌, min, max, String, ◌≡◌, refl, sym, ap, ◌∙◌,
  ◌≡⟨◌⟩◌, ◌∎, ◌≢◌, ◌↔◌, ◌⊎◌, inl, inr, Bool, true, false, not, ◌&&◌, ◌||◌, Option, none, some, List,
  [], ◌∷◌, ◌++◌, map, arith, ltb, leb, ◌==◌, if◌then◌else◌, opt_eq, is_some, ltb→lt, lt→ltb, leb→le,
  le→leb, ==→eq, ==-refl, opt_eq→eq, opt_eq_refl, Bool-cases, Option-cases, length, take, drop,
  keep, find, any, all, length-append, length-keep-le, find_sound, All, All-append, All-keep,
}
use open_whistle.Base.Int.{
  ℤ, pos, negsuc, pos_part, neg_part, sub_ℕ, ◌+ℤ◌, ◌≤ℤ◌, ltb_ℤ, leb_ℤ, floor_div, floor_mod,
}
use open_whistle.Base.Outcome.{
  Outcome, ok, http, raised, ◌>>=◌, ◌>>◌, demand, present, >>=-eq-ok, demand-eq-ok, present-eq-ok,
}
use text.Mathlib.Text.{◌==◌ as str_eq}
use open_whistle.Base.Text.{strip}

-- The keys, one constructor for each prefix: the HMAC of a case number, a username in folded case,
-- the minute of a failed password, the mark of a raised alert, the tries of the setup token.
pub data Key : Type 0 where
  whistleblower : String → Key
  admin : String → Key
  failed_logins : ℕ → Key
  spray_alerted setup_token : Key

abbrev pub key_eq : Key → Key → Bool
key_eq (whistleblower a) (whistleblower b) = str_eq a b
key_eq (admin a) (admin b) = str_eq a b
key_eq (failed_logins a) (failed_logins b) = a == b
key_eq spray_alerted spray_alerted = true
key_eq setup_token setup_token = true
key_eq _ _ = false

-- A number under a key, and the second at which it is gone, if it ever is.
pub record Counter : Type 0 where
  pub value : ℤ
  pub expires : Option ℕ

abbrev pub Store : Type 0
Store = Key → Option Counter

abbrev pub set : Key → Option Counter → Store → Store
set key cell redis = λ k. if key_eq k key then cell else redis k

abbrev pub is_live : ℕ → Option ℕ → Bool
is_live now none = true
is_live now (some end) = ltb now end

-- What the key holds at a time.
unfoldable pub get : ℕ → Option Counter → Option Counter
get now none = none
get now (some c) = if is_live now c.expires then some c else none

unfoldable pub bump : ℤ → Option Counter → Counter
bump by none = record { value = by; expires = none }
bump by (some c) = record c { value = c.value +ℤ by }

unfoldable pub prolong : ℕ → Option Counter → Option Counter
prolong end none = none
prolong end (some c) = some (record c { expires = some end })

-- INCRBY with 1 or -1: a missing key counts as 0 and gets no expiry, a present one keeps its own.
unfoldable pub add : ℕ → ℤ → Option Counter → Counter
unfolding get bump
add now by cell = bump by (get now cell)

-- EXPIRE
unfoldable pub expire : ℕ → ℕ → Option Counter → Option Counter
unfolding get prolong
expire now seconds cell = prolong (now + seconds) (get now cell)

module _ (max_login_attempts login_lockout_minutes : ℕ) (casefold : String → String) where
  unfoldable pub admin_key : String → Key
  unfolding strip
  admin_key username = admin (casefold (strip username))

  -- What `_claim` does once INCR has answered.
  unfoldable pub settle : ℕ → ℤ → Option Counter → Bool × Option Counter
  unfolding add expire
  settle now count cell =
      if ltb_ℤ (pos max_login_attempts) count
      then (false, some (add now (negsuc 0) cell))
      else (true, expire now (login_lockout_minutes * 60) cell)

  unfoldable pub claim : ℕ → Key → Store → Bool × Store
  unfolding add settle
  claim now key redis =
      let counted = add now (pos 1) (redis key) in
      let (granted, cell) = settle now counted.value (some counted) in (granted, set key cell redis)

  unfoldable pub claim_admin_attempt : ℕ → String → Store → Bool × Store
  unfolding admin_key claim
  claim_admin_attempt now username redis = claim now (admin_key username) redis

  -- The script: DECR, if the key exists.
  unfoldable pub give_back : ℕ → Option Counter → Option Counter
  unfolding add get
  give_back now cell = if is_some (get now cell) then some (add now (negsuc 0) cell) else cell

  unfoldable pub release_admin_attempt : ℕ → String → Store → Store
  unfolding admin_key give_back
  release_admin_attempt now username redis =
      let key = admin_key username in set key (give_back now (redis key)) redis

  unfoldable pub reset_admin_login_attempts : String → Store → Store
  unfolding admin_key
  reset_admin_login_attempts username redis = set (admin_key username) none redis

  unfoldable pub claim_setup_token_attempt : ℕ → Store → Bool × Store
  unfolding claim
  claim_setup_token_attempt now redis = claim now setup_token redis

unfoldable pub reset_setup_token_failures : Store → Store
reset_setup_token_failures redis = set setup_token none redis

unfoldable pub count_failure : ℕ → Key → ℕ → Store → ℤ × Store
unfolding add expire
count_failure now key seconds redis =
    let counted = add now (pos 1) (redis key) in
    (counted.value, set key (expire now seconds (some counted)) redis)

-- `hmac` is HMAC-SHA256 with the instance's secret key, in hexadecimal.
module _ (hmac : String → String) (access_lockout_minutes : ℕ) where
  unfoldable pub record_whistleblower_failure : ℕ → String → Store → ℤ × Store
  unfolding count_failure
  record_whistleblower_failure now case_key redis =
      count_failure now (whistleblower (hmac case_key)) (access_lockout_minutes * 60) redis

  -- TTL is -2 for no key and -1 for no expiry, which `max` turns into 0.
  unfoldable pub get_whistleblower_lockout_ttl : ℕ → String → Store → ℕ
  unfolding get
  get_whistleblower_lockout_ttl now case_key redis =
      elim (get now (redis (whistleblower (hmac case_key)))) [
        | none ↦ 0
        | some c ↦ elim c.expires [ none ↦ 0 | some end ↦ end - now ]
      ]

-- The sum of the `n` buckets that end before the minute `m`.
unfoldable pub sum_buckets : ℕ → Store → ℕ → ℕ → ℤ
unfolding get
sum_buckets now redis m zero = pos 0
sum_buckets now redis m (suc n) =
    let older = sum_buckets now redis (m - 1) n in
    elim (get now (redis (failed_logins (m - 1)))) [ none ↦ older | some c ↦ older +ℤ c.value ]

-- SET NX EX of the mark, if enough failures were counted; whether it was set.
unfoldable pub alert_once : ℕ → ℕ → Bool → Store → Bool × Store
unfolding get
alert_once minutes now enough redis =
    if enough && not (is_some (get now (redis spray_alerted)))
    then (
      true,
      set spray_alerted (some (record { value = pos 1; expires = some (now + minutes * 60) }))
          redis,
    )
    else (false, redis)

-- The failure goes into the bucket of its minute.
unfoldable pub count_login_failure : ℕ → ℕ → Store → Store
unfolding add expire
count_login_failure minutes now redis =
    let key = failed_logins (now / 60) in
    set key (expire now ((minutes + 1) * 60) (some (add now (pos 1) (redis key)))) redis

unfoldable pub is_reached : ℕ → ℕ → ℕ → Store → Bool
unfolding sum_buckets
is_reached threshold minutes now redis =
    leb_ℤ (pos threshold) (sum_buckets now redis (now / 60 + 1) minutes)

unfoldable pub record_instance_login_failure : ℕ → ℕ → ℕ → Store → Bool × Store
unfolding count_login_failure is_reached alert_once
record_instance_login_failure threshold minutes now redis =
    let counted = count_login_failure minutes now redis in
    if threshold == 0
    then (false, redis)
    else alert_once minutes now (is_reached threshold minutes now counted) counted
