-- ===== src/Drafts.antt =====
-- One reporter's draft in Redis and its final submit: the Lua scripts and the helpers of
-- app/api/reports.py that hand the draft over. Each script runs at once, as it does in Redis.
pub mod Steps
pub mod Identifier
pub mod Invariant
pub mod Opened
pub mod Safety
pub mod Recovered
use open_whistle.Base.{
  ℕ, zero, suc, ◌+◌, ◌-◌, ◌*◌, ◌/◌, ◌%◌, ◌≤◌, ◌<◌, min, max, String, ◌≡◌, refl, sym, ap, ◌∙◌,
  ◌≡⟨◌⟩◌, ◌∎, ◌≢◌, ◌↔◌, ◌⊎◌, inl, inr, Bool, true, false, not, ◌&&◌, ◌||◌, Option, none, some, List,
  [], ◌∷◌, ◌++◌, map, arith, ltb, leb, ◌==◌, if◌then◌else◌, opt_eq, is_some, ltb→lt, lt→ltb, leb→le,
  le→leb, ==→eq, ==-refl, opt_eq→eq, opt_eq_refl, Bool-cases, Option-cases, length, take, drop,
  keep, find, any, all, length-append, length-keep-le, find_sound, All, All-append, All-keep,
}
use open_whistle.Base.Int.{
  ℤ, pos, negsuc, pos_part, neg_part, sub_ℕ, ◌+ℤ◌, ◌≤ℤ◌, ltb_ℤ, leb_ℤ, floor_div, floor_mod,
}
use open_whistle.Base.Outcome.{
  Outcome, ok, http, raised, ◌>>=◌, ◌>>◌, demand, present, >>=-eq-ok, demand-eq-ok, present-eq-ok,
}
use text.Mathlib.Text.{◌==◌ as str_eq}
use Prim.Native.String.{[], ◌∷◌}
use open_whistle.Wizard.{Draft}

-- The keys of one submission session. A value is a token, or the nonce of a submit.
pub record Keys : Type 0 where
  pub draft : Option String
  pub claimed : Option String
  pub pending : Option String
  pub result : Option String
  pub report_id : Option ℕ

-- A row of the reports table, with what this model needs of it.
pub record Filed : Type 0 where
  pub id : ℕ
  pub case_number : String

-- What the success page shows.
pub record Received : Type 0 where
  pub case_number : String
  pub pin : Option String

-- redis.call('GET', key) == value
abbrev pub holds : Option String → String → Bool
holds none value = false
holds (some v) value = str_eq v value

-- What a script leaves in the keys, and its answer.
pub record Reply {ℓ} (A : Type ℓ) : Type ℓ where
  pub keys : Keys
  pub answer : A

abbrev pub reply {ℓ} : {A : Type ℓ} → Keys → A → Reply A
reply k a = record { keys = k; answer = a }

-- _ASSIGN_REPORT_ID
unfoldable pub assign_report_id : String → ℕ → Keys → Reply (Option ℕ)
assign_report_id token fresh_id k =
    let id : ℕ = elim k.report_id [ none ↦ fresh_id | some id ↦ id ] in
    if not (holds k.draft token)
    then reply k none
    else reply (record k { report_id = some id }) (some id)

-- _CLAIM_DRAFT
unfoldable pub claim_draft : String → Keys → Reply (Option String)
claim_draft nonce k =
    if not (is_some k.draft) || is_some k.claimed
    then reply k none
    else reply (record k { draft = none; claimed = k.draft; pending = some nonce }) k.draft

-- _RECOVER_DRAFT
unfoldable pub recover_draft : String → String → Keys → Reply Bool
recover_draft token result k =
    if is_some k.pending || is_some k.draft || not (holds k.claimed token)
    then reply k false
    else if str_eq result ""
    then reply (record k { draft = k.claimed; claimed = none }) true
    else reply (record k { claimed = none; report_id = none; result = some result }) true

-- `pending` is another submit's.
abbrev pub is_newer : Option String → String → Bool
is_newer pending nonce = is_some pending && not (holds pending nonce)

-- _GIVE_BACK_DRAFT
unfoldable pub give_back_draft : String → String → Keys → Reply Bool
give_back_draft token nonce k =
    if is_newer k.pending nonce
    then reply k false
    else reply
        (record k {
          draft = (if is_some k.draft then k.draft else some token);
          claimed = none;
          pending = none;
        })
        true

-- _FINISH_CLAIM
unfoldable pub finish_claim : String → String → Keys → Keys
finish_claim nonce result k =
    let told : Keys = if str_eq result "" then k else record k { result = some result } in
    if is_newer k.pending nonce
    then told
    else record told { draft = none; claimed = none; pending = none; report_id = none }

-- _committed_case_number
unfoldable pub committed_case_number : List Filed → ℕ → Option String
committed_case_number [] id = none
committed_case_number (r ∷ rs) id =
    if r.id == id then some r.case_number else committed_case_number rs id

-- `_received`: the PIN is shown once, elsewhere
abbrev pub received : String → Received
received c = record { case_number = c; pin = none }

-- What `_recover_draft` hands its script: "" while the report does not exist.
unfoldable pub recovery : (Received → String) → List Filed → Draft → String
unfolding committed_case_number
recovery encrypt_result reports d = elim d.report_id [
  | none ↦ ""
  | some id ↦ elim (committed_case_number reports id) [
    | none ↦ ""
    | some c ↦ encrypt_result (received c)
  ]
]

-- What a submit stores when the report exists: nothing if another submit's report it is.
unfoldable pub outcome : (Received → String) → Option String → String → Option String → String
outcome encrypt_result our_case committed pin = elim our_case [
  | none ↦ ""
  | some c ↦
      if str_eq c committed then encrypt_result (record { case_number = c; pin = pin }) else ""
]
