-- ===== src/Drafts/Steps.antt =====
-- The requests on one draft, interleaved in any order: each step is one command or one script of
-- Redis, one transaction of the database, or a request that computes. A request may end anywhere,
-- and "pending" and the stored result may expire at any time; the draft and the claimed draft do not.
use open_whistle.Base.{
  ℕ, String, ◌≡◌, Bool, true, false, Option, none, some, List, [], ◌∷◌, ◌==◌, if◌then◌else◌,
}
use open_whistle.Wizard.{
  Draft, Instance, Form, File, post, visit, fail, draft_error, with_report_id, step_review,
}
use open_whistle.Drafts.{
  Keys, Filed, Received, claim_draft, recover_draft, give_back_draft, finish_claim,
  committed_case_number, recovery, outcome,
}

-- What a request on the draft holds between its steps.
pub data Request : Type 0 where
  idle : Request
  loaded : Draft → Request
  saving : Draft → Request
  submitting : (token nonce : String) → Draft → (our_case : Option String) → Request
  giving_back : (token nonce : String) → Draft → Request
  finishing : (nonce result : String) → Request
  recovering : (token result : String) → Request

-- Redis, the reports filed from this draft, and whether the reporter asked for an empty wizard.
pub record Store : Type 0 where
  pub keys : Keys
  pub reports : List Filed
  pub restarted : Bool

abbrev pub with_keys : Store → Keys → Store
with_keys s k = record s { keys = k }

-- Tokens: a sealed draft, and a sealed result. Sealing takes an initialisation vector.
pub record Cipher : Type 0 where
  pub encrypt_draft : ℕ → Draft → String
  pub decrypt_draft : String → Option Draft
  pub encrypt_result : ℕ → Received → String
  pub decrypt_result : String → Option Received

-- Decryption gives back what was encrypted, as far as it is told apart here: the identifier of the
-- draft's report, and the case number of a result.
pub record IsSound (c : Cipher) : Type 0 where
  pub draft :
      (iv : ℕ) (d : Draft)
      → (back : Draft) × (c.decrypt_draft (c.encrypt_draft iv d) ≡ some back)
        × (back.report_id ≡ d.report_id)
  pub result :
      (iv : ℕ) (r : Received)
      → (back : Received) × (c.decrypt_result (c.encrypt_result iv r) ≡ some back)
        × (back.case_number ≡ r.case_number)

module _ (c : Cipher) (valid_email : String → Bool) where
  -- What a page of the wizard makes of the draft that it loaded.
  pub data Edit (d : Draft) : Draft → Type 0 where
    posted :
        {d' : Draft} (i : Instance) (form : Form) → post valid_email i form d ≡ some d' → Edit d d'
    attachments : (files : List File) → Edit d (record d { file_data = files })
    visited : (i : Instance) → Edit d (visit i d)

  -- One step of one request.
  pub data Act (s : Store) : Request → Store → Request → Type 0 where
    load :
        {token : String} {d : Draft}
        → s.keys.draft ≡ some token
        → c.decrypt_draft token ≡ some d
        → Act s idle s (loaded d)
    edit : {d d' : Draft} → Edit d d' → Act s (loaded d) s (saving d')
    save :
        {d : Draft} (iv fresh_id : ℕ)
        → Act s
            (saving d)
            (with_keys s
              (record s.keys { draft = some (c.encrypt_draft iv (with_report_id fresh_id d)) }))
            idle
    claim :
        {token : String} {d : Draft} (nonce : String)
        → (claim_draft nonce s.keys).answer ≡ some token
        → c.decrypt_draft token ≡ some d
        → Act s idle (with_keys s (claim_draft nonce s.keys).keys) (submitting token nonce d none)
    -- a draft that was never saved since version 2
    no_id :
        {token nonce : String} {d : Draft}
        → d.report_id ≡ none
        → Act s (submitting token nonce d none) s (giving_back token nonce d)
    invalid :
        {token nonce error : String} {d : Draft} {step : ℕ} (i : Instance)
        → draft_error i d ≡ some (step, error)
        → Act s (submitting token nonce d none) s (giving_back token nonce (fail step error d))
    create :
        {token nonce : String} {d : Draft} (i : Instance) (case_number : String)
        → draft_error i d ≡ none
        → Act s (submitting token nonce d none) s (submitting token nonce d (some case_number))
    -- the primary key refuses a second report with the identifier
    commit :
        {token nonce case_number : String} {d : Draft} {id : ℕ}
        → d.report_id ≡ some id
        → committed_case_number s.reports id ≡ none
        → Act s
            (submitting token nonce d (some case_number))
            (record s { reports = record { id = id; case_number = case_number } ∷ s.reports })
            (submitting token nonce d (some case_number))
    -- the COMMIT's answer came, or the lookup after a failure found the report
    committed :
        {token nonce case_number : String} {d : Draft} {id : ℕ} {our_case : Option String} (iv : ℕ)
        (pin : Option String)
        → d.report_id ≡ some id
        → committed_case_number s.reports id ≡ some case_number
        → Act s
            (submitting token nonce d our_case)
            s
            (finishing nonce (outcome (c.encrypt_result iv) our_case case_number pin))
    -- the submit failed before it had a case number, and the lookup found no report
    not_committed :
        {token nonce : String} {d : Draft} {id : ℕ}
        → d.report_id ≡ some id
        → committed_case_number s.reports id ≡ none
        → Act s
            (submitting token nonce d none)
            s
            (giving_back token nonce (fail step_review "submit_failed" d))
    give_back :
        {token nonce : String} {d : Draft}
        → Act s
            (giving_back token nonce d)
            (with_keys s (give_back_draft token nonce s.keys).keys)
            (saving d)
    finish :
        {nonce result : String}
        → Act s (finishing nonce result) (with_keys s (finish_claim nonce result s.keys)) idle
    -- the checks of `_recover_draft`, and its lookup
    look :
        {token : String} {d : Draft} (iv : ℕ)
        → s.keys.draft ≡ none
        → s.keys.pending ≡ none
        → s.keys.claimed ≡ some token
        → c.decrypt_draft token ≡ some d
        → Act s idle s (recovering token (recovery (c.encrypt_result iv) s.reports d))
    recover :
        {token result : String}
        → Act s
            (recovering token result)
            (with_keys s (recover_draft token result s.keys).keys)
            idle
    take_result : Act s idle (with_keys s (record s.keys { result = none })) idle
    restart :
        Act s idle
          (record s { keys = record s.keys { draft = none; report_id = none }; restarted = true })
          idle
    pending_expires : Act s idle (with_keys s (record s.keys { pending = none })) idle
    ends : {r : Request} → Act s r s idle

  pub record World : Type 0 where
    pub store : Store
    pub requests : ℕ → Request

  abbrev pub update : (ℕ → Request) → ℕ → Request → ℕ → Request
  update requests i r j = if j == i then r else requests j

  -- A draft that a wizard has saved, and no request on it yet.
  abbrev pub start : String → World
  start token = record {
    store = record {
      keys = record {
        draft = some token;
        claimed = none;
        pending = none;
        result = none;
        report_id = none;
      };
      reports = [];
      restarted = false;
    };
    requests = λ _. idle;
  }

  pub data Reach (w : World) : World → Type 0 where
    here : Reach w w
    then_act :
        {v : World} {s : Store} {r : Request}
        → Reach w v
        → (i : ℕ) → Act v.store (v.requests i) s r
        → Reach w (record { store = s; requests = update v.requests i r })
